-- ===== src/SessionDb/Remove.antt =====
-- `cg_sessiondb_entry_delete` ends one session.
use compuguessr.Base.{
  ℕ, ◌+◌, ◌≤◌, ◌<◌, ◌≡◌, refl, ◌∙◌, ◌≢◌, inl, inr, true, none, some, Returns, arith, length,
  get_or-set, set, length-set, ◌==◌, if◌then◌else◌, Bool-cases, Option-cases,
}
use compuguessr.Base.Search.{count_if, count_if-set, count_if_le}
use compuguessr.Base.Words.{sub_u32}
use compuguessr.Hashmap.{Map}
use compuguessr.Hashmap.Lookup.{view, is_vacant}
use compuguessr.Hashmap.Delete.{Deletes, delete_key_uint-Deletes}
use compuguessr.SessionDb.{SessionDb, SessionEntry, pool_size, zero_entry, entry_delete}
use compuguessr.SessionDb.Invariant.{IsValid, entry_at, is_active, session, entry_get-view}

-- What the end of session `sid` does.
pub record Closes (db : SessionDb) (sid : ℕ) (db' : SessionDb) : Type 0 where
  pub valid : IsValid db'
  pub reads : (q : ℕ) → session db' q ≡ (if q == sid then none else session db q)
  pub fills : count_if is_vacant db'.map.entries ≡ count_if is_vacant db.map.entries

module _ (db : SessionDb) (sid : ℕ) (v : IsValid db) where
  module _ (i : ℕ) (e : view db.map sid ≡ some i) (m : Map) (del : Deletes db.map sid m) where
    abbrev ended : SessionEntry
    ended = let s = entry_at db i in record s { is_active = 0 }

    abbrev closed : SessionDb
    closed =
        let hdr = db.hdr in
        record {
          hdr = record hdr { entry_count = sub_u32 hdr.entry_count 1 };
          map = m;
          pool = set db.pool i ended;
        }

    inside : i < length db.pool
    inside = let t = v.ties sid i e in omega (arith, v.pooled)

    entry_closed : (j : ℕ) → entry_at closed j ≡ (if i == j then ended else entry_at db j)
    entry_closed j = get_or-set db.pool i j ended zero_entry inside

    -- Two ids do not share a place.
    other_place : (q j : ℕ) → view db.map q ≡ some j → q ≢ sid → i ≢ j
    other_place q j e' ne same = let t = v.ties q j e' in let s = v.ties sid i e in ground arith

    one_less : m.count + 1 ≡ db.map.count
    one_less = rw e at del.counts

    bound : db.map.count ≤ pool_size
    bound = omega (arith, v.actives, v.pooled, count_if_le is_active db.pool)

    closed-IsValid : IsValid closed
    closed-IsValid = record {
      map_valid = del.valid;
      sized = del.same_size ∙ v.sized;
      pooled = length-set db.pool i ended ∙ v.pooled;
      ties = λ q j e'. ground (arith, del.reads q, entry_closed j, v.ties q j, other_place q j);
      owned = λ j lt busy.
          ground (arith, entry_closed j, v.owned j, del.reads (entry_at db j).session_id);
      counted = omega (arith, one_less, v.counted, bound);
      actives = ground (
        arith,
        count_if-set is_active zero_entry db.pool i ended inside,
        v.ties sid i e,
        v.actives,
        one_less,
      );
    }

    closed-Closes : Closes db sid closed
    unfolding session
    closed-Closes = record {
      valid = closed-IsValid;
      reads = λ q. elim (Bool-cases (q == sid)) [
        | inl same ↦ rw (del.reads q, same) refl
        | inr other ↦ elim (Option-cases (view db.map q)) [
          | inl e' ↦ rw (del.reads q, other, e') refl
          | inr (j, e') ↦
              rw (del.reads q, other, e') (ground (arith, entry_closed j, other_place q j))
        ]
      ];
      fills = del.fills;
    }

  missing-Closes : view db.map sid ≡ none → Closes db sid db
  unfolding session
  missing-Closes e = record {
    valid = v;
    reads = λ q. elim (Bool-cases (q == sid)) [
      | inr other ↦ rw other refl
      | inl same ↦ let q_sid : q ≡ sid = ground arith in rw (q_sid, e, same_id sid) refl
    ];
    fills = refl;
  }
    where
      same_id : (s : ℕ) → s == s ≡ true
      same_id s = ground arith

  -- Deleting any id from a valid database ends. It leaves a valid database in which the id has no
  -- session and every other id reads as before; no slot of the map becomes unused again.
  pub entry_delete-Closes : Returns (entry_delete db sid) (Closes db sid)
  unfolding entry_delete
  entry_delete-Closes = rw (entry_get-view db sid v) (elim (Option-cases (view db.map sid)) [
    | inl e ↦ rw e (db, refl, missing-Closes e)
    | inr (i, e) ↦
        let (m, run, del) = delete_key_uint-Deletes db.map sid v.map_valid in
        rw (e, run) (_, refl, closed-Closes i e m del)
  ])
