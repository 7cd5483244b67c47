-- ===== src/Upnp/Examples.antt =====
-- The theorems on the port maps at concrete inputs, and tests.
use addnas_mldonkey.Base.{◌≡◌, refl, true, [], ◌∷◌}
use addnas_mldonkey.Upnp.{
  Mapping, PortMaps, cleared, maps_add_item, maps_remove_item, ok, refused, fresh, find_index,
}
use addnas_mldonkey.Upnp.Invariant.{
  HasDistinct, Free, maps_add_item-HasDistinct, maps_remove_item-HasDistinct,
}

abbrev web : Mapping
web = record cleared { int_port = 4080; ext_port = 4080; is_tcp = 1 }

abbrev game : Mapping
game = record cleared { int_port = 4666; ext_port = 4666 }

-- Both tables with two slots.
abbrev two_slots : PortMaps
two_slots = record {
  inited = true;
  maps = fresh web ∷ cleared ∷ [];
  unmaps = cleared ∷ cleared ∷ [];
}

two_slots-HasDistinct : HasDistinct 2 two_slots
two_slots-HasDistinct = record { distinct = (λ on. (refl, tt), (λ on. tt, tt)); sized = refl }

full_table :
    (maps_add_item
      (record two_slots { maps = fresh web ∷ fresh game ∷ [] })
      (record game { is_tcp = 1 })).0
    ≡ refused
unfolding maps_add_item find_index
full_table = refl

removed : (maps_remove_item two_slots web).0 ≡ ok
unfolding maps_remove_item find_index
removed = refl

maps_add_item_example :
    HasDistinct 2 (maps_add_item two_slots game).1
    × ((maps_add_item two_slots game).0 ≡ ok → ¬ Free game (maps_add_item two_slots game).1.maps)
maps_add_item_example = maps_add_item-HasDistinct 2 two_slots game two_slots-HasDistinct

maps_remove_item_example :
    HasDistinct 2 (maps_remove_item two_slots web).1
    × ((maps_remove_item two_slots web).0 ≡ ok → Free web (maps_remove_item two_slots web).1.maps)
maps_remove_item_example = maps_remove_item-HasDistinct 2 two_slots web two_slots-HasDistinct
