-- ===== src/Tests/Users.antt =====
-- The user accounts.
use compuguessr.Base.{
  ℕ, ◌+◌, ◌≡◌, ◌≢◌, refl, ◌⊎◌, true, false, bit_xor, none, List, arith, replicate,
}
use compuguessr.Base.Search.{find_index}
use compuguessr.Base.Text.{codes, c_str}
use compuguessr.Util.Hash.{Crc}
use compuguessr.UserDb.{
  Created, find, find_by_id, create, register_at, delete, is_idle, pool_size, new_file,
}
use compuguessr.UserDb.Invariant.{IsValid, user_at, new_file-IsValid, new_file-Unique}
use compuguessr.UserDb.Create.{Registers, create_cases, create-IsValid}
use compuguessr.UserDb.Names.{Finds, create-Finds, long_name_repeats}
use compuguessr.UserDb.Remove.{Removes, delete_cases}

-- Some function of sum and data.
abbrev sums : Crc
sums = record { crc32_u64 = bit_xor; crc32_u8 = bit_xor }

abbrev ada : List ℕ
ada = codes "ada"

abbrev word : List ℕ
word = codes "lovelace"

abbrev long_name : List ℕ
long_name = codes "a_name_that_is_longer_than_the_31_bytes"

abbrev first : Created
first = create sums new_file ada word true

first_code : first.code ≡ 0
unfolding create register_at find_index replicate
first_code = refl

first-Finds : Finds new_file ada first
unfolding c_str
first-Finds =
    create-Finds sums new_file ada word true new_file-IsValid new_file-Unique (omega arith)
      first_code

first-IsValid : IsValid first.db
first-IsValid = create-IsValid sums new_file ada word true new_file-IsValid

create_cases_example :
    ((create sums first.db ada word false ≡ record { code = 1; db = first.db; out = none })
      × (find first.db ada ≢ none))
    ⊎ ((create sums first.db ada word false ≡ record { code = 2; db = first.db; out = none })
        × (find first.db ada ≡ none)
        × (first.db.hdr.count ≡ pool_size))
    ⊎ (Registers sums first.db ada word false (create sums first.db ada word false)
        × (find first.db ada ≡ none))
create_cases_example = create_cases sums first.db ada word false first-IsValid

create-Finds_example : Finds new_file ada (create sums new_file ada word true)
unfolding c_str
create-Finds_example =
    create-Finds sums new_file ada word true new_file-IsValid new_file-Unique (omega arith)
      first_code

long_name_repeats_example :
    (find (create sums new_file long_name word true).db long_name ≡ none)
    × ((create sums (create sums new_file long_name word true).db long_name ada true).code ≢ 1)
unfolding c_str
long_name_repeats_example =
    long_name_repeats sums new_file long_name word ada true new_file-IsValid (omega arith)

delete_cases_example :
    ((slot : ℕ) × (1 ≡ slot + 1)
      × (is_idle (user_at first.db slot) ≡ false)
      × ((delete first.db 1).0 ≡ 0)
      × Removes first.db slot (delete first.db 1).1)
    ⊎ ((find_by_id first.db 1 ≡ none) × (delete first.db 1 ≡ (1, first.db)))
delete_cases_example = delete_cases first.db 1 first-IsValid
