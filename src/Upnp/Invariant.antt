-- ===== src/Upnp/Invariant.antt =====
-- No two entries of `g_maps` in use are for the same ports.
use mathlib.Core.Option.{none-ne-some}
use mathlib.Core.Path.{subst}
use mathlib.Core.Bool.{true≢false}
use addnas_mldonkey.Base.{
  ◌<◌, length-set, Option-cases, length, ℕ, zero, suc, ◌≡◌, refl, sym, ◌∙◌, arith, Bool, true,
  false, not, ◌&&◌, none, some, List, [], ◌∷◌, set, Bool-cases, inl, inr,
}
use addnas_mldonkey.Upnp.Search.{
  find_index-here, find_index-later, none_later, find_index-cases, find_index-lt,
}
use addnas_mldonkey.Upnp.{
  Mapping, PortMaps, same_ports, Answer, not_inited, ok, refused, unused, serves, find_index, fresh,
  maps_remove_item, maps_add_item, cleared,
}

-- The answers differ.
IsOk : Answer → Type 0
IsOk ok = Unit
IsOk not_inited = ⊥
IsOk refused = ⊥

not_inited≢ok : ¬ (not_inited ≡ ok)
unfolding IsOk
not_inited≢ok e = subst IsOk (sym e) tt

refused≢ok : ¬ (refused ≡ ok)
unfolding IsOk
refused≢ok e = subst IsOk (sym e) tt

enabled_part : (a b : Bool) → a ≡ true → (a && b) ≡ false → b ≡ false
enabled_part a b on h = ground arith

-- No entry serves the ports of `map`.
abbrev pub Free : Mapping → List Mapping → Type 0
Free map [] = Unit
Free map (m ∷ ms) = (serves map m ≡ false) × Free map ms

abbrev pub Distinct : List Mapping → Type 0
Distinct [] = Unit
Distinct (m ∷ ms) = (m.enabled ≡ true → Free m ms) × Distinct ms

find_index-Free :
    (map : Mapping) (ms : List Mapping) → find_index (serves map) ms ≡ none → Free map ms
find_index-Free map [] h = tt
find_index-Free map (m ∷ ms) h = elim (Bool-cases (serves map m)) [
  | inl y ↦ absurd (none-ne-some zero (sym h ∙ find_index-here (serves map) m ms y))
  | inr n ↦
      (n, find_index-Free map ms (none_later _ (sym (find_index-later (serves map) m ms n) ∙ h)))
]

same_ports-sym : (a b : Mapping) → same_ports a b ≡ same_ports b a
same_ports-sym a b = ground arith

-- An entry in use that does not serve `map` does not share ports with what is stored for it.
serves-fresh :
    (m map : Mapping) → m.enabled ≡ true → serves map m ≡ false → serves m (fresh map) ≡ false
serves-fresh m map on h = same_ports-sym m map ∙ enabled_part m.enabled (same_ports map m) on h

Free-fresh : (map : Mapping) (ms : List Mapping) → Free map ms → Free (fresh map) ms
Free-fresh map [] h = tt
Free-fresh map (m ∷ ms) h = (h.0, Free-fresh map ms h.1)

-- A write that does not serve the ports of `m` leaves them free.
set-Free :
    (m f : Mapping) (ms : List Mapping) (i : ℕ)
    → serves m f ≡ false
    → Free m ms
    → Free m (set ms i f)
set-Free m f [] i n h = tt
set-Free m f (x ∷ ms) zero n h = (n, h.1)
set-Free m f (x ∷ ms) (suc i) n h = (h.0, set-Free m f ms i n h.1)

-- A mapping for free ports may be stored anywhere.
set-Distinct :
    (map : Mapping) (ms : List Mapping) (i : ℕ)
    → Free map ms
    → Distinct ms
    → Distinct (set ms i (fresh map))
set-Distinct map [] i f d = tt
set-Distinct map (m ∷ ms) zero f d = (λ on. Free-fresh map ms f.1, d.1)
set-Distinct map (m ∷ ms) (suc i) f d = (
  λ on. set-Free m (fresh map) ms i (serves-fresh m map on f.0) (d.0 on),
  set-Distinct map ms i f.1 d.1,
)

same_ports_self : (m : Mapping) → same_ports m m ≡ true
same_ports_self m = ground arith

-- What is stored is there.
set-held :
    (map : Mapping) (ms : List Mapping) (i : ℕ) → i < length ms → ¬ Free map (set ms i (fresh map))
set-held map [] i h f = absurd (omega arith)
set-held map (m ∷ ms) zero h f = true≢false (sym (same_ports_self map) ∙ f.0)
set-held map (m ∷ ms) (suc i) h f = set-held map ms i (omega arith) f.1

clear-Distinct : (ms : List Mapping) (i : ℕ) → Distinct ms → Distinct (set ms i cleared)
clear-Distinct [] i d = tt
clear-Distinct (m ∷ ms) zero d = (λ on. absurd (true≢false (sym on)), d.1)
clear-Distinct (m ∷ ms) (suc i) d =
    (λ on. set-Free m cleared ms i refl (d.0 on), clear-Distinct ms i d.1)

same_free :
    (map m x : Mapping) → same_ports map m ≡ true → serves m x ≡ false → serves map x ≡ false
same_free map m x same free = ground arith

same-Free :
    (map m : Mapping) (ms : List Mapping) → same_ports map m ≡ true → Free m ms → Free map ms
same-Free map m [] h f = tt
same-Free map m (x ∷ ms) h f = (same_free map m x h f.0, same-Free map m ms h f.1)

both_parts : (a b : Bool) → (a && b) ≡ true → (a ≡ true) × (b ≡ true)
both_parts a b h = (ground arith, ground arith)

-- The entry found is the only one, so its ports are free once it is cleared.
clear-Free :
    (map : Mapping) (ms : List Mapping) (i : ℕ)
    → find_index (serves map) ms ≡ some i
    → Distinct ms
    → Free map (set ms i cleared)
clear-Free map [] i h d = tt
clear-Free map (m ∷ ms) i h d = elim (find_index-cases (serves map) m ms i h) [
  | inl (y, e) ↦
      let (on, same) = both_parts m.enabled (same_ports map m) y in
      subst (λ (n : ℕ). Free map (set (m ∷ ms) n cleared)) (sym e)
        (refl, same-Free map m ms same (d.0 on))
  | inr (n, j, e, later) ↦
      subst (λ (n : ℕ). Free map (set (m ∷ ms) n cleared)) (sym later)
        (n, clear-Free map ms j e d.1)
]

-- The entries of `g_maps` in use are for different ports, and there are `size` entries.
pub record HasDistinct (size : ℕ) (g : PortMaps) : Type 0 where
  pub distinct : Distinct g.maps
  pub sized : length g.maps ≡ size

module _ (size : ℕ) (g : PortMaps) (map : Mapping) (v : HasDistinct size g) where
  -- `maps_add_item` keeps the entries of `g_maps` in use for different ports, and their number.
  -- Where it answers 0, an entry in use is for the ports of the mapping.
  pub maps_add_item-HasDistinct :
      HasDistinct size (maps_add_item g map).1
      × ((maps_add_item g map).0 ≡ ok → ¬ Free map (maps_add_item g map).1.maps)
  unfolding maps_add_item
  maps_add_item-HasDistinct = elim (Bool-cases g.inited) [
    | inr off ↦ simp off (v, λ e. absurd (not_inited≢ok e))
    | inl on ↦ simp on (elim (Option-cases (find_index (serves map) g.maps)) [
      | inr (i, held) ↦ rw held (v, λ e. absurd (refused≢ok e))
      | inl free ↦ rw free (elim (Option-cases (find_index (λ m. not m.enabled) g.maps)) [
        | inl full ↦ rw full (v, λ e. absurd (refused≢ok e))
        | inr (i, slot) ↦ rw slot (
          record {
            distinct = set-Distinct map g.maps i (find_index-Free map g.maps free) v.distinct;
            sized = length-set g.maps i (fresh map) ∙ v.sized;
          },
          λ e. set-held map g.maps i (find_index-lt _ g.maps i slot),
        )
      ])
    ])
  ]

  -- `maps_remove_item` keeps the entries of `g_maps` in use for different ports, and their number.
  -- Where it answers 0, no entry in use is for the ports of the mapping.
  pub maps_remove_item-HasDistinct :
      HasDistinct size (maps_remove_item g map).1
      × ((maps_remove_item g map).0 ≡ ok → Free map (maps_remove_item g map).1.maps)
  unfolding maps_remove_item
  maps_remove_item-HasDistinct = elim (Bool-cases g.inited) [
    | inr off ↦ simp off (v, λ e. absurd (not_inited≢ok e))
    | inl on ↦ simp on (elim (Option-cases (find_index (serves map) g.maps)) [
      | inr (i, held) ↦ rw held (elim (Option-cases (find_index unused g.unmaps)) [
        | inl full ↦ rw full (v, λ e. absurd (refused≢ok e))
        | inr (j, slot) ↦ rw slot (
          record {
            distinct = clear-Distinct g.maps i v.distinct;
            sized = length-set g.maps i cleared ∙ v.sized;
          },
          λ e. clear-Free map g.maps i held v.distinct,
        )
      ])
      | inl free ↦ rw free (
          let gone = find_index-Free map g.maps free in
          elim (Option-cases (find_index (same_ports map) g.unmaps)) [
            | inr (i, known) ↦ rw known (v, λ e. gone)
            | inl new ↦ rw new (elim (Option-cases (find_index unused g.unmaps)) [
              | inl full ↦ rw full (v, λ e. gone)
              | inr (j, slot) ↦
                  rw slot (record { distinct = v.distinct; sized = v.sized }, λ e. gone)
            ])
          ])
    ])
  ]
