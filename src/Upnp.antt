-- ===== src/Upnp.antt =====
-- utils/net/upnp_stubs.c: the tables of port mappings, `g_maps` and `g_unmaps`, and the calls that
-- fill them. A mapping keeps the fields that these calls read or write; the others they copy or
-- clear with the whole structure. The lock and the debug prints are left out.
pub mod Search
pub mod Invariant
mod Examples
use addnas_mldonkey.Base.{
  ℕ, zero, suc, Bool, true, false, not, ◌&&◌, Option, none, some, List, [], ◌∷◌, replicate, set,
  get_or, ◌==◌, if◌then◌else◌,
}

pub data UpnpState : Type 0 where
  upnp_idle upnp_err upnp_discover upnp_map upnp_unmap : UpnpState

pub data NatpmpState : Type 0 where
  natpmp_idle natpmp_err natpmp_discover natpmp_recv_pub natpmp_send_map natpmp_recv_map
        natpmp_send_unmap natpmp_recv_unmap :
      NatpmpState

pub data PortForwarding : Type 0 where
  port_error port_unmapped port_unmapping port_mapping port_mapped : PortForwarding

-- `ml_upnpmp_t`. `none` as socket is -1. The source declares `natpmpState` as `ml_upnp_state`, and
-- keeps the values of `ml_natpmp_state` in it.
pub record Mapping : Type 0 where
  pub enabled : Bool
  pub int_port : ℕ
  pub ext_port : ℕ
  pub is_tcp : ℕ
  pub over_time : ℕ
  pub natpmp_status : PortForwarding
  pub upnp_status : PortForwarding
  pub upnp_state : UpnpState
  pub natpmp_state : NatpmpState
  pub socket : Option ℕ

-- `memset` to 0
abbrev pub cleared : Mapping
cleared = record {
  enabled = false;
  int_port = 0;
  ext_port = 0;
  is_tcp = 0;
  over_time = 0;
  natpmp_status = port_error;
  upnp_status = port_error;
  upnp_state = upnp_idle;
  natpmp_state = natpmp_idle;
  socket = some 0;
}

-- `g_inited`, `g_maps`, `g_unmaps`
pub record PortMaps : Type 0 where
  pub inited : Bool
  pub maps : List Mapping
  pub unmaps : List Mapping

-- The results -1, 0 and 1.
pub data Answer : Type 0 where
  not_inited ok refused : Answer

abbrev pub same_ports : Mapping → Mapping → Bool
same_ports map m =
    m.int_port == map.int_port && (m.ext_port == map.ext_port && m.is_tcp == map.is_tcp)

-- `init_maps`: `MAX_MAPS` slots each, cleared once.
unfoldable pub init_maps : PortMaps → PortMaps
init_maps g =
    if not g.inited
    then record { inited = true; maps = replicate 20 cleared; unmaps = replicate 20 cleared }
    else g

-- An entry of `g_maps` that is in use for the ports of `map`.
abbrev pub serves : Mapping → Mapping → Bool
serves map m = m.enabled && same_ports map m

-- The first index that passes a test.
unfoldable pub find_index : (Mapping → Bool) → List Mapping → Option ℕ
find_index test [] = none
find_index test (m ∷ ms) =
    let rest : Option ℕ = elim (find_index test ms) [ none ↦ none | some i ↦ some (suc i) ] in
    if test m then some zero else rest

-- What `maps_add_item` makes of the mapping that it stores.
abbrev pub fresh : Mapping → Mapping
fresh map = record map {
  enabled = true;
  upnp_state = upnp_discover;
  natpmp_state = natpmp_discover;
  socket = none;
  upnp_status = port_unmapped;
  natpmp_status = port_unmapped;
  over_time = 0;
}

-- `maps_add_item`
unfoldable pub maps_add_item : PortMaps → Mapping → Answer × PortMaps
maps_add_item g map =
    let stored : Answer × PortMaps = elim (find_index (λ m. not m.enabled) g.maps) [
      | none ↦ (refused, g)
      | some i ↦ (ok, record g { maps = set g.maps i (fresh map) })
    ] in
    let added : Answer × PortMaps = elim (find_index (serves map) g.maps) [
      | none ↦ stored
      | some i ↦ (refused, g)
    ] in
    if g.inited then added else (not_inited, g)

-- How `maps_remove_item` stores a mapping in `g_unmaps`.
abbrev pub retired : Mapping → Mapping
retired map = record map { enabled = false; over_time = 0 }

-- A slot of `g_unmaps` that is not in use.
abbrev pub unused : Mapping → Bool
unused m = m.ext_port == 0

-- `maps_remove_item`
unfoldable pub maps_remove_item : PortMaps → Mapping → Answer × PortMaps
maps_remove_item g map =
    let moved : ℕ → Answer × PortMaps = λ i. elim (find_index unused g.unmaps) [
      | none ↦ (refused, g)
      | some j ↦
          let old = get_or g.maps i cleared in
          (ok, record g { maps = set g.maps i cleared; unmaps = set g.unmaps j (retired old) })
    ] in
    let stored : Answer × PortMaps = elim (find_index unused g.unmaps) [
      | none ↦ (refused, g)
      | some j ↦ (ok, record g { unmaps = set g.unmaps j (retired map) })
    ] in
    let unmapped : Answer × PortMaps = elim (find_index (same_ports map) g.unmaps) [
      | none ↦ stored
      | some i ↦ (ok, g)
    ] in
    let removed : Answer × PortMaps = elim (find_index (serves map) g.maps) [
      | none ↦ unmapped
      | some i ↦ moved i
    ] in
    if g.inited then removed else (not_inited, g)
