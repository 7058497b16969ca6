-- ===== src/Roles/Tags.antt =====
-- The chips of a role's policies: web/src/pages/dashboard/token-roles/components/tag-input.tsx.
use tuck.Base.{
  Text, List, [], ◌∷◌, ◌++◌, not, keep, map, is_empty, text_eq, includes, trim, split_on,
  if◌then◌else◌,
}

-- The chips and the text that is being typed.
pub record TagInput : Type 0 where
  pub value : List Text
  pub draft : Text

-- `if (!next.includes(p)) next.push(p)`, for every part.
unfoldable pub push_new : List Text → List Text → List Text
unfolding text_eq
push_new [] next = next
push_new (p ∷ parts) next = push_new parts (if includes next p then next else next ++ p ∷ [])

-- `parts`
unfoldable pub parts : Text → List Text
unfolding split_on trim
parts raw = keep (λ p. not (is_empty p)) (map trim (split_on b',' raw))

-- `commit`
unfoldable pub commit : Text → TagInput → TagInput
unfolding push_new parts
commit raw t = record { value = push_new (parts raw) t.value; draft = [] }

-- `value.slice(0, -1)`
unfoldable pub all_but_last : List Text → List Text
all_but_last [] = []
all_but_last (v ∷ []) = []
all_but_last (v ∷ w ∷ vs) = v ∷ all_but_last (w ∷ vs)

-- Backspace in the input.
unfoldable pub backspace : TagInput → TagInput
unfolding all_but_last
backspace t = record t { value = if is_empty t.draft then all_but_last t.value else t.value }

-- The button of a chip.
unfoldable pub remove_tag : Text → TagInput → TagInput
unfolding text_eq
remove_tag v t = record t { value = keep (λ x. not (text_eq x v)) t.value }

-- `onBlur`
unfoldable pub blur : TagInput → TagInput
unfolding commit trim
blur t = if is_empty (trim t.draft) then t else commit t.draft t

-- `free`
unfoldable pub free : List Text → TagInput → List Text
unfolding text_eq
free suggestions t = keep (λ s. not (includes t.value s)) suggestions

-- The button of a suggestion.
unfoldable pub add_suggestion : Text → TagInput → TagInput
add_suggestion s t = record t { value = t.value ++ s ∷ [] }
