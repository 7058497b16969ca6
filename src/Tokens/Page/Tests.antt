-- ===== src/Tokens/Page/Tests.antt =====
-- Rows, the sweep and the pages.
use tuck.Base.{
  ◌==◌, if◌then◌else◌, arith, ◌≡◌, refl, ℕ, Text, List, [], ◌∷◌, codes, true, false, Option, none,
  some, text_eq, includes, length, is_empty,
}
use tuck.Tokens.{
  TokenInfo, to_row, total_of, fmt_total, policy_tone, bad, ok, brass, violet, mute, short_acc,
  mask_id, ago_text, just_now, h_ago,
}
use tuck.Tokens.Page.{
  TokensPage, rows, row_ids, ids, sweep, dissolved, revoke, rejected, policy_counts, sel_ids,
  toggle_page, pages, page_slice, shown_page, soon_count,
}
use tuck.Tokens.Page.Steps.{Action, lists, looks_up, ticks, first_page, run}
use tuck.Tokens.Page.Gone.{overdue, all_fired, sweep-gone}
use tuck.Tokens.Page.Pages.{from_page, pages-all}

abbrev token : Text → ℕ → ℕ → TokenInfo
token id start end = record {
  id = id;
  accessor = some (codes "0123456789abcdef");
  display_name = none;
  policies = some (codes "ops" ∷ []);
  created_at = some start;
  expires_at = some end;
  namespace = some [];
  use_count = some 2;
  max_uses = none;
  renewable = some true;
}

-- The token `a` ends at 5000, and `b` at 9000.
abbrev known : Text → Option TokenInfo
known [] = none
known (c ∷ s) = if c == b'a' then some (token (c ∷ s) 1000 5000) else some (token (c ∷ s) 2000 9000)

abbrev before : List Action
before = lists (codes "a" ∷ codes "b" ∷ []) ∷ looks_up known (λ id. false) ∷ ticks 5000 ∷ []

abbrev page : TokensPage
page = run (λ s. s) before first_page

row_tests :
    ((to_row (codes "a") (known (codes "a")) false).total ≡ 4)
    × ((to_row (codes "a") (known (codes "a")) false).ns ≡ codes "root")
    × (total_of (some 5000) (some 1000) ≡ 1)
    × (fmt_total 90 (codes "d") (codes "h") (codes "m") ≡ codes "2m")
    × (policy_tone (codes "root") ≡ bad)
    × (policy_tone (codes "kv-read") ≡ ok)
    × (policy_tone (codes "kv-rw") ≡ brass)
    × (policy_tone (codes "ci-x") ≡ violet)
    × (policy_tone (codes "x") ≡ mute)
    × (short_acc (codes "0123456789abcdef") ≡ codes "0123456789…cdef")
    × (mask_id (codes "0123456789") ≡ codes "••••••••6789")
    × (ago_text 5000 1000 ≡ just_now)
    × (ago_text 0 7200000 ≡ h_ago 2)
unfolding to_row total_of fmt_total policy_tone short_acc mask_id ago_text text_eq
row_tests = (refl, refl, refl, refl, refl, refl, refl, refl, refl, refl, refl, refl, refl)

page_tests :
    (row_ids (rows page) ≡ codes "b" ∷ codes "a" ∷ [])
    × ((sweep page).dissolving ≡ codes "a" ∷ [])
    × (ids (dissolved (sweep page)) ≡ codes "b" ∷ [])
    × ((revoke ((codes "a", rejected (some 404)) ∷ (codes "b", rejected none) ∷ []) page).dissolving
        ≡ codes "a" ∷ [])
    × (policy_counts (λ a b. true) (rows page) ≡ (codes "ops", 2) ∷ [])
    × (sel_ids (toggle_page (λ s. s) page) ≡ codes "b" ∷ codes "a" ∷ [])
    × (soon_count 5000 (rows page) ≡ 1)
unfolding rows sweep ids dissolved revoke policy_counts sel_ids toggle_page soon_count run text_eq
page_tests = (refl, refl, refl, refl, refl, refl, refl)

late_a : includes (overdue page) (codes "a") ≡ true
unfolding overdue rows run text_eq
late_a = refl

sweep-gone_example :
    includes
      (ids
        (run (λ s. s) (lists (codes "a" ∷ []) ∷ []) (all_fired (sweep page).timers (sweep page))))
      (codes "a")
    ≡ false
sweep-gone_example = sweep-gone (λ s. s) before (lists (codes "a" ∷ []) ∷ []) (codes "a") late_a

abbrev three : List ℕ
three = 1 ∷ 2 ∷ 3 ∷ []

pages-all_example :
    (from_page 1 (pages (length three)) three ≡ three)
    × (is_empty three ≡ false → is_empty (page_slice (shown_page 9 (length three)) three) ≡ false)
pages-all_example = pages-all 9 three (omega arith)
