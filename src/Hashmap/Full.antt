-- ===== src/Hashmap/Full.antt =====
-- A table in which every slot has been used.
use compuguessr.Base.{
  ℕ, zero, suc, ◌-◌, ◌<◌, ◌≡◌, refl, false, none, List, fail, no_fuel, arith, get_elem?-eq-get_or,
}
use compuguessr.Base.Search.{count_if, count_if_pos}
use compuguessr.Hashmap.{Entry, blank, at, next, start, probe}
use compuguessr.Hashmap.Probe.{IsSize, ring, home, home-lt, next_lem, start_lem}
use compuguessr.Hashmap.Lookup.{slot, scan, Placed, is_vacant}
use compuguessr.Hashmap.Update.{scan_absent}

module _ (n : ℕ) (size : IsSize n) (es : List Entry) (p : Placed n es) (key : ℕ)
    (used : count_if is_vacant es ≡ 0) (absent : scan key es ≡ none) where
  never_stops : (fuel i : ℕ) → i < n → probe es (n - 1) key fuel i ≡ fail no_fuel
  unfolding probe
  never_stops zero i lt = refl
  never_stops (suc fuel) i lt =
      let nonempty : is_vacant (slot es i) ≡ false =
        ground (arith, count_if_pos is_vacant blank es i, p.len) in
      let other = scan_absent n size es p key absent i lt in
      let step : next (n - 1) (ring n i 0) ≡ ring n i 1 = next_lem n size i 0 lt (omega arith) in
      let here : ring n i 0 ≡ i = ground arith in
      rw
        (
          get_elem?-eq-get_or es i blank (omega (arith, p.len)),
          at,
          nonempty,
          other,
          rw here at step,
        )
        (never_stops fuel (ring n i 1) (ground arith))

  -- Once every slot of a well placed table has been used, by live entries or by tombstones, the
  -- lookup of a key that is absent never ends: its loop uses up any number of rounds.
  pub probe_never_ends : (fuel : ℕ) → probe es (n - 1) key fuel (start (n - 1) key) ≡ fail no_fuel
  probe_never_ends fuel =
      rw (start_lem n size key) (never_stops fuel (home n key) (home-lt n size key))
