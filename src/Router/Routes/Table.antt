-- ===== src/Router/Routes/Table.antt =====
-- The map of routes after `cg_route_map_init`.
use compuguessr.Base.{
  ℕ, ◌<◌, ◌≡◌, refl, ◌∙◌, Option, none, some, List, [], ◌∷◌, Returns, arith, length, ◌==◌,
  if◌then◌else◌,
}
use compuguessr.Base.Search.{count_if}
use compuguessr.Hashmap.{Map, insert_key_str}
use compuguessr.Hashmap.Lookup.{IsValid, view, is_vacant}
use compuguessr.Hashmap.Insert.{insert_key_uint-Inserts}
use compuguessr.Hashmap.Delete.{fresh, fresh-IsValid}
use compuguessr.Util.Hash.{Crc, hash_str}
use compuguessr.Router.Routes.{routes, insert_routes, map_init}

module _ (hw : Crc) where
  -- The handler that a hash leads to, after the routes of a list.
  unfoldable pub routed : ℕ → List (List ℕ × ℕ) → Option ℕ → Option ℕ
  routed key [] before = before
  routed key ((path, handler) ∷ rest) before =
      routed key rest (if key == hash_str hw path then some handler else before)

  -- The map holds the routes.
  pub record HasRoutes (m : Map) (list : List (List ℕ × ℕ)) (m' : Map) : Type 0 where
    pub valid : IsValid m'
    pub reads : (key : ℕ) → view m' key ≡ routed key list (view m key)

  insert_routes-HasRoutes :
      (list : List (List ℕ × ℕ)) (m : Map)
      → IsValid m
      → length list < count_if is_vacant m.entries
      → Returns (insert_routes hw m list) (HasRoutes m list)
  unfolding insert_routes insert_key_str routed
  insert_routes-HasRoutes [] m v room = (m, refl, record { valid = v; reads = λ key. refl })
  insert_routes-HasRoutes ((path, handler) ∷ rest) m v room =
      let (m₁, e₁, ins) =
        insert_key_uint-Inserts m (hash_str hw path) handler v (λ _. omega arith) in
      let (m₂, e₂, has) = insert_routes-HasRoutes rest m₁ ins.valid (omega (arith, ins.fills)) in
      rw (e₁, e₂)
        (
          m₂,
          refl,
          record { valid = has.valid; reads = λ key. has.reads key ∙ rw (ins.reads key) refl },
        )

  -- Started on a zeroed table of 32 slots, the routes go in, the map is valid, and a key leads to
  -- the handler of the last route whose path has that hash, or nowhere if no path has it.
  pub map_init-HasRoutes :
      Returns
        (map_init hw (fresh 32))
        (λ m. IsValid m × ((key : ℕ) → view m key ≡ routed key routes none))
  unfolding map_init
  map_init-HasRoutes =
      let (valid, nothing, unused) =
        fresh-IsValid 32 (record { log = 5; power = refl; fits = omega arith }) in
      let (m, e, has) = insert_routes-HasRoutes routes (fresh 32) valid (omega (arith, unused)) in
      (m, e, (has.valid, λ key. has.reads key ∙ rw (nothing key) refl))
