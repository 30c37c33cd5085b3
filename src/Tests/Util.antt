-- ===== src/Tests/Util.antt =====
-- Division, memory and strings.
use compuguessr.Base.{ℕ, ◌≡◌, refl, List}
use compuguessr.Base.Int.{negsuc}
use compuguessr.Base.Text.{codes}
use compuguessr.Base.{[], ◌∷◌}
use compuguessr.Util.Memory.{memcmp, memcmp_blocks, first_mismatch, memcmp_avx2}

abbrev left : List ℕ
left = codes "GET /challenges?sort=points&page=2 HTTP/1.1"

abbrev right : List ℕ
right = codes "GET /challenges?sort=points&page=3 HTTP/1.1"

differ : memcmp_avx2 left right 43 ≡ negsuc 0
unfolding memcmp_avx2 memcmp_blocks first_mismatch memcmp
differ = refl

abbrev environment : List (List ℕ)
environment = codes "HOME=/srv" ∷ codes "CG_DB=users.db" ∷ []
