-- ===== src/Upnp/Search.antt =====
-- The search for the first entry that passes a test.
use mathlib.Core.Option.{none-ne-some, some-injective}
use addnas_mldonkey.Base.{
  ℕ, zero, suc, ◌<◌, length, ◌≡◌, ◌⊎◌, refl, sym, ◌∙◌, arith, Bool, true, false, Option, none, some,
  List, [], ◌∷◌, Bool-cases, inl, inr,
}
use addnas_mldonkey.Upnp.{Mapping, find_index}

module _ (test : Mapping → Bool) (m : Mapping) (ms : List Mapping) where
  pub find_index-here : test m ≡ true → find_index test (m ∷ ms) ≡ some zero
  unfolding find_index
  find_index-here y = rw y refl

  pub find_index-later :
      test m ≡ false
      → find_index test (m ∷ ms) ≡ elim (find_index test ms) [ none ↦ none | some i ↦ some (suc i) ]
  unfolding find_index
  find_index-later n = rw n refl

pub none_later :
    (o : Option ℕ)
    → elim o as (λ x. Option ℕ) [ none ↦ none | some i ↦ some (suc i) ] ≡ none
    → o ≡ none
none_later none h = refl
none_later (some i) h = absurd (none-ne-some (suc i) (sym h))

some_later :
    (o : Option ℕ) (i : ℕ)
    → elim o as (λ x. Option ℕ) [ none ↦ none | some k ↦ some (suc k) ] ≡ some i
    → (j : ℕ) × (o ≡ some j) × (i ≡ suc j)
some_later none i h = absurd (none-ne-some i h)
some_later (some k) i h = (k, refl, sym (some-injective (suc k) i h))

-- An index found is that of the head, or one found in the tail.
pub find_index-cases :
    (test : Mapping → Bool) (m : Mapping) (ms : List Mapping) (i : ℕ)
    → find_index test (m ∷ ms) ≡ some i
    → ((test m ≡ true) × (i ≡ zero))
      ⊎ ((test m ≡ false) × (j : ℕ) × (find_index test ms ≡ some j) × (i ≡ suc j))
find_index-cases test m ms i h = elim (Bool-cases (test m)) [
  | inl y ↦ inl (y, sym (some-injective zero i (sym (find_index-here test m ms y) ∙ h)))
  | inr n ↦
      let (j, e, later) = some_later _ i (sym (find_index-later test m ms n) ∙ h) in
      inr (n, j, e, later)
]

find_index-nil : (test : Mapping → Bool) → find_index test [] ≡ none
unfolding find_index
find_index-nil test = refl

-- An index found is in range.
pub find_index-lt :
    (test : Mapping → Bool) (ms : List Mapping) (i : ℕ)
    → find_index test ms ≡ some i
    → i < length ms
find_index-lt test [] i h = absurd (none-ne-some i (sym (find_index-nil test) ∙ h))
find_index-lt test (m ∷ ms) i h = elim (find_index-cases test m ms i h) [
  | inl (y, e) ↦ omega (arith, e)
  | inr (n, j, e, later) ↦ omega (arith, later, find_index-lt test ms j e)
]
