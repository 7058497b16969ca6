-- ===== src/Tokens/Page/Pages.antt =====
-- The pages of the table of web/src/pages/dashboard/tokens/tokens.page.tsx.
use tuck.Base.{
  ℕ, zero, suc, ◌+◌, ◌-◌, ◌*◌, ◌≤◌, ◌≡◌, refl, sym, ap, ◌∙◌, List, [], ◌∷◌, ◌++◌, false, length,
  take, drop, is_empty, arith,
}
use tuck.Tokens.Page.{per_page, pages, shown_page, page_slice}

enough_pages : (n : ℕ) → n ≤ pages n * per_page
unfolding pages
enough_pages n = omega arith

page_starts : (page n : ℕ) → 1 ≤ page → 1 ≤ n → suc ((shown_page page n - 1) * per_page) ≤ n
unfolding shown_page pages
page_starts page n h k = omega (arith, h, k)

module _ {ℓ} {A : Type ℓ} where
  -- The rows of `count` pages, from page `pg` on.
  pub from_page : ℕ → ℕ → List A → List A
  from_page pg zero xs = []
  from_page pg (suc count) xs = page_slice pg xs ++ from_page (pg + 1) count xs

  drop-nil : (n : ℕ) → drop {A = A} n [] ≡ []
  drop-nil zero = refl
  drop-nil (suc n) = refl

  take-nil : (n : ℕ) → take {A = A} n [] ≡ []
  take-nil zero = refl
  take-nil (suc n) = refl

  drop-drop : (a b : ℕ) (xs : List A) → drop a (drop b xs) ≡ drop (a + b) xs
  drop-drop a zero xs = ap (λ n. drop n xs) (omega arith)
  drop-drop a (suc b) [] = drop-nil a ∙ sym (drop-nil (a + suc b))
  drop-drop a (suc b) (x ∷ xs) =
      let sum : suc (a + b) ≡ a + suc b = omega arith in
      drop-drop a b xs ∙ ap (λ n. drop n (x ∷ xs)) sum

  take-add : (a b : ℕ) (xs : List A) → take a xs ++ take b (drop a xs) ≡ take (a + b) xs
  take-add zero b xs = ap (λ n. take n xs) (omega arith)
  take-add (suc a) b [] = take-nil b ∙ sym (take-nil (suc a + b))
  take-add (suc a) b (x ∷ xs) =
      let sum : suc (a + b) ≡ suc a + b = omega arith in
      ap (λ t. x ∷ t) (take-add a b xs) ∙ ap (λ n. take n (x ∷ xs)) sum

  take-whole : (n : ℕ) (xs : List A) → length xs ≤ n → take n xs ≡ xs
  take-whole zero [] h = refl
  take-whole zero (x ∷ xs) h = absurd (omega (arith, h))
  take-whole (suc n) [] h = refl
  take-whole (suc n) (x ∷ xs) h = ap (λ t. x ∷ t) (take-whole n xs (omega (arith, h)))

  drop-given : (n : ℕ) (xs : List A) → suc n ≤ length xs → is_empty (drop n xs) ≡ false
  drop-given zero [] h = absurd (omega (arith, h))
  drop-given zero (x ∷ xs) h = refl
  drop-given (suc n) [] h = absurd (omega (arith, h))
  drop-given (suc n) (x ∷ xs) h = drop-given n xs (omega (arith, h))

  from_page-take :
      (k count : ℕ) (xs : List A)
      → from_page (suc k) count xs ≡ take (count * per_page) (drop (k * per_page) xs)
  unfolding from_page page_slice
  from_page-take k zero xs = refl
  from_page-take k (suc count) xs =
      ap (λ n. take per_page (drop (n * per_page) xs) ++ from_page (suc k + 1) count xs)
        (omega arith)
      ∙ ap (λ n. take per_page (drop (k * per_page) xs) ++ from_page n count xs) (omega arith)
      ∙ ap (λ t. take per_page (drop (k * per_page) xs) ++ t) (from_page-take (suc k) count xs)
      ∙ ap (λ n. take per_page (drop (k * per_page) xs) ++ take (count * per_page) (drop n xs))
          (omega arith)
      ∙ ap (λ t. take per_page (drop (k * per_page) xs) ++ take (count * per_page) t)
          (sym (drop-drop per_page (k * per_page) xs))
      ∙ take-add per_page (count * per_page) (drop (k * per_page) xs)
      ∙ ap (λ n. take n (drop (k * per_page) xs)) (omega arith)

  given-length : (xs : List A) → is_empty xs ≡ false → 1 ≤ length xs
  given-length [] h = cc h
  given-length (x ∷ xs) h = omega arith

  take-given : (n : ℕ) (xs : List A) → is_empty xs ≡ false → is_empty (take (suc n) xs) ≡ false
  take-given n [] h = cc h
  take-given n (x ∷ xs) h = refl

  page_slice-given :
      (page : ℕ) (xs : List A)
      → 1 ≤ page
      → is_empty xs ≡ false
      → is_empty (page_slice (shown_page page (length xs)) xs) ≡ false
  unfolding page_slice
  page_slice-given page xs h k = take-given 19 _ (
      drop-given ((shown_page page (length xs) - 1) * per_page) xs
        (page_starts page (length xs) h (given-length xs k)))

no_pages : 0 * per_page ≡ 0
no_pages = omega arith

-- The pages one after the other are all the rows, each once and in order; and the page that is
-- shown has a row on it if there is one at all, also when the page that was chosen is not there
-- any more.
pub pages-all {ℓ} :
    {A : Type ℓ} (page : ℕ) (xs : List A)
    → 1 ≤ page
    → (from_page 1 (pages (length xs)) xs ≡ xs)
      × (is_empty xs ≡ false → is_empty (page_slice (shown_page page (length xs)) xs) ≡ false)
pages-all page xs h = (
  from_page-take 0 (pages (length xs)) xs
      ∙ ap (λ n. take (pages (length xs) * per_page) (drop n xs)) no_pages
      ∙ take-whole _ xs (enough_pages (length xs)),
  page_slice-given page xs h,
)
