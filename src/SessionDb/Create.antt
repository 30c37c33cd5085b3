-- ===== src/SessionDb/Create.antt =====
-- `cg_sessiondb_entry_create`: which calls succeed, and what they do to the sessions.
use compuguessr.Base.{
  ℕ, ◌+◌, ◌≤◌, ◌<◌, ◌≡◌, refl, ◌∙◌, ◌≢◌, ◌⊎◌, inl, inr, false, none, some, ok, Returns, arith,
  get_or-set, set, length-set, ◌==◌, leb, if◌then◌else◌, Bool-cases, Option-cases,
}
use compuguessr.Base.Search.{
  count_if, count_if-set, count_if-not, find_index, find_index-First, First,
}
use compuguessr.Base.Words.{u32}
use compuguessr.Hashmap.{Map}
use compuguessr.Hashmap.Lookup.{view, is_vacant}
use compuguessr.Hashmap.Insert.{Inserts, insert_key_uint-Inserts, live_vacant_bound}
use compuguessr.SessionDb.{
  SessionDb, SessionEntry, Created, Draw, pool_size, zero_entry, is_free, claimed, store,
  entry_create, session_id_get,
}
use compuguessr.SessionDb.Invariant.{IsValid, entry_at, is_active, session}
use mathlib.Core.Option

-- What a successful creation of session `sid` does.
pub record Opens (db : SessionDb) (sid uid now : ℕ) (r : Created) : Type 0 where
  pub code : r.code ≡ 0
  pub out : r.out ≡ some (claimed sid uid now)
  pub valid : IsValid r.db
  pub reads :
      (q : ℕ) → session r.db q ≡ (if q == sid then some (claimed sid uid now) else session db q)
  pub fills : count_if is_vacant db.map.entries ≤ count_if is_vacant r.db.map.entries + 1

module _ (db : SessionDb) (sid uid now : ℕ) (v : IsValid db) (new : view db.map sid ≡ none)
    (roomy : 1 < count_if is_vacant db.map.entries) where
  abbrev entry : SessionEntry
  entry = claimed sid uid now

  -- The map has room, so it holds fewer keys than the pool has places.
  count-lt : db.map.count < pool_size
  count-lt = omega (
    arith,
    v.map_valid.counted,
    live_vacant_bound db.map.entries,
    v.map_valid.placed.len,
    v.sized,
  )

  module _ (i : ℕ) (f : First is_free zero_entry db.pool i) (m : Map)
      (ins : Inserts db.map sid i m) where
    abbrev stored : SessionDb
    stored =
        let hdr = db.hdr in
        record {
          hdr = record hdr { entry_count = u32 (hdr.entry_count + 1) };
          map = m;
          pool = set db.pool i entry;
        }

    entry-stored : (j : ℕ) → entry_at stored j ≡ (if i == j then entry else entry_at db j)
    entry-stored j = get_or-set db.pool i j entry zero_entry f.below

    -- No key leads to a free place.
    unclaimed : (q j : ℕ) → view db.map q ≡ some j → i ≢ j
    unclaimed q j e same = let t = v.ties q j e in ground (arith, f.passes)

    one_more : m.count ≡ db.map.count + 1
    one_more = rw new at ins.counts

    stored-IsValid : IsValid stored
    stored-IsValid = record {
      map_valid = ins.valid;
      sized = ins.same_size ∙ v.sized;
      pooled = length-set db.pool i entry ∙ v.pooled;
      ties = λ q j e.
          ground (arith, ins.reads q, entry-stored j, v.ties q j, unclaimed q j, f.below, v.pooled);
      owned = λ j lt busy.
          ground
            (arith, entry-stored j, v.owned j, ins.reads (entry_at db j).session_id, ins.reads sid);
      counted = omega (arith, one_more, v.counted, count-lt);
      actives = ground (
        arith,
        count_if-set is_active zero_entry db.pool i entry f.below,
        f.passes,
        v.actives,
        one_more,
      );
    }

    stored_reads :
        (q : ℕ) → session stored q ≡ (if q == sid then some (claimed sid uid now) else session db q)
    unfolding session
    stored_reads q = elim (Bool-cases (q == sid)) [
      | inl same ↦ rw (ins.reads q, same, Option.map, entry-stored i) (ground arith)
      | inr other ↦ elim (Option-cases (view db.map q)) [
        | inl e ↦ rw (ins.reads q, other, e) refl
        | inr (j, e) ↦ rw (ins.reads q, other, e) (ground (arith, entry-stored j, unclaimed q j e))
      ]
    ]

    stored-Opens : Opens db sid uid now (record { code = 0; db = stored; out = some entry })
    stored-Opens = record {
      code = refl;
      out = refl;
      valid = stored-IsValid;
      reads = stored_reads;
      fills = ins.fills;
    }

  store_lem :
      (i : ℕ)
      → First is_free zero_entry db.pool i
      → Returns (store db i entry) (Opens db sid uid now)
  unfolding store
  store_lem i f =
      let (m, e, ins) = insert_key_uint-Inserts db.map sid i v.map_valid (λ _. roomy) in
      rw e (_, refl, stored-Opens i f m ins)

  -- There is a free place.
  free_place : (i : ℕ) × (find_index is_free db.pool ≡ some i)
  free_place = elim (Option-cases (find_index is_free db.pool)) [
    | inr found ↦ found
    | inl e ↦ absurd (omega (arith, count_if-not is_free db.pool e, v.actives, v.pooled, count-lt))
  ]

-- On a valid database with an unused slot to spare, a drawn id that is not in use gets a
-- session: the call ends with code 0 and a copy of the new entry, the database stays valid, the
-- id reads as that entry, every other id as before, and at most one unused slot is taken.
pub entry_create-Opens :
    (db : SessionDb) (uid : ℕ) (draw : Draw) (now : ℕ)
    → IsValid db
    → session_id_get draw ≢ 0
    → view db.map (session_id_get draw) ≡ none
    → 1 < count_if is_vacant db.map.entries
    → Returns (entry_create db uid draw now) (Opens db (session_id_get draw) uid now)
unfolding entry_create
entry_create-Opens db uid draw now v nonzero new roomy =
    let sid = session_id_get draw in
    let below : leb pool_size db.map.count ≡ false =
      ground (arith, count-lt db sid uid now v new roomy) in
    let drawn : session_id_get draw == 0 ≡ false = ground arith in
    let (i, e) = free_place db sid uid now v new roomy in
    rw (below, drawn, e)
      (store_lem db sid uid now v new roomy i (find_index-First is_free zero_entry db.pool i e))

entry_create-refuses :
    (db : SessionDb) (uid : ℕ) (draw : Draw) (now : ℕ)
    → session_id_get draw ≡ 0
    → entry_create db uid draw now ≡ ok (record { code = 1; db = db; out = none })
unfolding entry_create
entry_create-refuses db uid draw now why = ground arith

-- On a valid database with an unused slot to spare, and for an id that is not in use, a call ends
-- in one of two ways: no id was drawn, and then the code is 1, nothing is copied and the database
-- is as it was; or the code is 0, with a copy of the new entry, the database stays valid, the id
-- reads as that entry, every other id as before, and at most one unused slot is taken.
pub entry_create_cases :
    (db : SessionDb) (uid : ℕ) (draw : Draw) (now : ℕ)
    → IsValid db
    → view db.map (session_id_get draw) ≡ none
    → 1 < count_if is_vacant db.map.entries
    → ((session_id_get draw ≡ 0)
        × (entry_create db uid draw now ≡ ok (record { code = 1; db = db; out = none })))
      ⊎ ((session_id_get draw ≢ 0)
          × Returns (entry_create db uid draw now) (Opens db (session_id_get draw) uid now))
entry_create_cases db uid draw now v new roomy = elim (Bool-cases (session_id_get draw == 0)) [
  | inl undrawn ↦ inl (ground arith, entry_create-refuses db uid draw now (ground arith))
  | inr drawn ↦
      let nonzero : session_id_get draw ≢ 0 = ground arith in
      inr (nonzero, entry_create-Opens db uid draw now v nonzero new roomy)
]
