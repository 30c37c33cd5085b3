-- ===== src/Tests/Maps.antt =====
-- The hashmap and the sessions.
use compuguessr.Base.{
  ℕ, ◌≡◌, ◌≢◌, ◌⊎◌, refl, none, some, List, [], ◌∷◌, ok, fail, no_fuel, Returns, arith,
}
use compuguessr.Base.Search.{count_if, find_index}
use compuguessr.Hashmap.{Entry, get_key_uint, insert_key_uint, delete_key_uint, probe, start}
use compuguessr.Hashmap.Probe.{IsSize}
use compuguessr.Hashmap.Lookup.{Placed, scan, view, get_key_uint-scan}
use compuguessr.Hashmap.Insert.{Inserts, insert_key_uint-Inserts}
use compuguessr.Hashmap.Delete.{Deletes, delete_key_uint-Deletes, fresh, fresh-IsValid}
use compuguessr.Hashmap.Full.{probe_never_ends}
use compuguessr.SessionDb.{drawn, entry_create, entry_delete, session_id_get, init}
use compuguessr.SessionDb.Invariant.{empty, empty-IsValid, empty-unused, init-restart}
use compuguessr.SessionDb.Create.{Opens, entry_create-Opens, entry_create_cases}
use compuguessr.SessionDb.Remove.{Closes, entry_delete-Closes}

IsSize-4 : IsSize 4
IsSize-4 = record { log = 2; power = refl; fits = omega arith }

one_key : Returns (insert_key_uint (fresh 4) 7 9) (Inserts (fresh 4) 7 9)
one_key =
    let (valid, nothing, unused) = fresh-IsValid 4 IsSize-4 in
    insert_key_uint-Inserts (fresh 4) 7 9 valid (λ _. omega (arith, unused))

insert_key_uint-Inserts_example : Returns (insert_key_uint (fresh 4) 7 9) (Inserts (fresh 4) 7 9)
insert_key_uint-Inserts_example =
    insert_key_uint-Inserts (fresh 4) 7 9 (fresh-IsValid 4 IsSize-4).0
      (λ _. omega (arith, (fresh-IsValid 4 IsSize-4).2))

get_key_uint-scan_example : get_key_uint one_key.0 7 ≡ ok (scan 7 one_key.0.entries)
get_key_uint-scan_example = get_key_uint-scan one_key.0 7 one_key.2.valid

delete_key_uint-Deletes_example : Returns (delete_key_uint one_key.0 7) (Deletes one_key.0 7)
delete_key_uint-Deletes_example = delete_key_uint-Deletes one_key.0 7 one_key.2.valid

-- A table of one slot, deleted from.
abbrev tombstone : List Entry
tombstone = record { key = 5; val = 1; occupied = 2 } ∷ []

IsSize-1 : IsSize 1
IsSize-1 = record { log = 0; power = refl; fits = omega arith }

tombstone-Placed : Placed 1 tombstone
tombstone-Placed = record {
  len = refl;
  reach = λ i d lt live. absurd (ground arith);
  distinct = λ i j i_lt j_lt live. absurd (ground arith);
}

probe_never_ends_example : probe tombstone 0 8 1000 (start 0 8) ≡ fail no_fuel
unfolding count_if find_index
probe_never_ends_example = probe_never_ends 1 IsSize-1 tombstone tombstone-Placed 8 refl refl 1000

nothing_open : (q : ℕ) → view empty.map q ≡ none
unfolding empty
nothing_open q = (fresh-IsValid 4096 (record { log = 12; power = refl; fits = omega arith })).1 q

id_77 : session_id_get (drawn 8 77) ≡ 77
unfolding session_id_get
id_77 = refl

opened :
    Returns
      (entry_create empty 42 (drawn 8 77) 1000)
      (Opens empty (session_id_get (drawn 8 77)) 42 1000)
opened =
    entry_create-Opens empty 42 (drawn 8 77) 1000 empty-IsValid
      (rw id_77 (λ e. absurd (omega arith))) (nothing_open _) (omega (arith, empty-unused))

entry_create_cases_example :
    ((session_id_get (drawn 8 77) ≡ 0)
      × (entry_create empty 42 (drawn 8 77) 1000
          ≡ ok (record { code = 1; db = empty; out = none })))
    ⊎ ((session_id_get (drawn 8 77) ≢ 0)
        × Returns
            (entry_create empty 42 (drawn 8 77) 1000)
            (Opens empty (session_id_get (drawn 8 77)) 42 1000))
entry_create_cases_example =
    entry_create_cases empty 42 (drawn 8 77) 1000 empty-IsValid
      (nothing_open (session_id_get (drawn 8 77))) (omega (arith, empty-unused))

entry_delete-Closes_example : Returns (entry_delete opened.0.db 77) (Closes opened.0.db 77)
entry_delete-Closes_example = entry_delete-Closes opened.0.db 77 opened.2.valid

init-restart_example :
    let m = empty.map in
    init (some (122912, record empty { map = record m { capacity = 5; count = 6 } })) ≡ some empty
unfolding empty
init-restart_example = init-restart empty 122912 5 6 empty-IsValid (λ e. absurd (omega arith)) refl
