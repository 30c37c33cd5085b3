-- ===== src/Util/Copy.antt =====
-- Copying and filling memory: `cg_memcpy`, `cg_memset`, `cg_memslide` and `cg_puts` of
-- src/util/cg_util.c, `cg_memcpy_avx2` and `cg_memset_avx2` of src/arch/x86_64/cg_util.asm. Both
-- operands lie in one memory, a list of bytes that stands at the address `start`; a pointer is its
-- offset in that list.
pub mod Moves
pub mod Fill
pub mod Written
pub mod Clash
pub mod Exact
use compuguessr.Base.{
  ℕ, zero, suc, ◌+◌, ◌-◌, ◌/◌, ◌%◌, List, ◌++◌, Run, ok, fail, out_of_bounds, length, take, drop,
  get_or, set, replicate, ◌==◌, ltb, if◌then◌else◌,
}
use compuguessr.Base.Text.{c_str, write}

-- The byte loop.
unfoldable pub memcpy : ℕ → List ℕ → ℕ → ℕ → List ℕ
memcpy zero mem dest src = mem
memcpy (suc n) mem dest src = memcpy n (set mem dest (get_or mem src 0)) (dest + 1) (src + 1)

-- One vector register: it is loaded as a whole before it is stored.
abbrev pub copy_vector : List ℕ → ℕ → ℕ → List ℕ
copy_vector mem dest src = write mem dest (take 32 (drop src mem))

-- `.vector_loop`, with the number of its rounds.
unfoldable pub copy_vectors : ℕ → List ℕ → ℕ → ℕ → List ℕ
copy_vectors zero mem dest src = mem
copy_vectors (suc rounds) mem dest src =
    copy_vectors rounds (copy_vector mem dest src) (dest + 32) (src + 32)

-- The bytes of `.align_prologue`.
unfoldable pub prologue : ℕ → ℕ
prologue address = let rcx = address % 32 in if rcx == 0 then 0 else 32 - rcx

-- The bytes that are left for `.vector_tail`.
unfoldable pub tail_size : ℕ → ℕ → ℕ
unfolding prologue
tail_size address n = (n - prologue address) % 32

-- `.vector_tail` copies the last 32 bytes again.
unfoldable pub copy_tail : ℕ → List ℕ → ℕ → ℕ → List ℕ
copy_tail zero mem dest_end src_end = mem
copy_tail (suc left) mem dest_end src_end = copy_vector mem (dest_end - 32) (src_end - 32)

unfoldable pub memcpy_avx2 : ℕ → List ℕ → ℕ → ℕ → ℕ → List ℕ
unfolding memcpy copy_vectors prologue tail_size copy_tail
memcpy_avx2 start mem dest src n =
    let head = prologue (start + dest) in
    let aligned = memcpy head mem dest src in
    let looped = copy_vectors ((n - head) / 32) aligned (dest + head) (src + head) in
    let done = copy_tail (tail_size (start + dest) n) looped (dest + n) (src + n) in
    let small = memcpy n mem dest src in if ltb n 32 then small else done

-- The pointer behind the bytes that were moved, and the memory. Where `s2` lies behind `s1 + n` the
-- size is negative.
unfoldable pub memslide : ℕ → List ℕ → ℕ → ℕ → ℕ → Run (ℕ × List ℕ)
unfolding memcpy_avx2
memslide start mem s1 s2 n =
    let diff = s1 + n - s2 in
    let moved = memcpy_avx2 start mem s1 s2 diff in
    if ltb (s1 + n) s2 then fail out_of_bounds else ok (s1 + diff, moved)

-- `val` is the byte that the conversion to `char` leaves.
unfoldable pub memset : ℕ → List ℕ → ℕ → ℕ → List ℕ
memset zero mem dest val = mem
memset (suc n) mem dest val = memset n (set mem dest val) (dest + 1) val

unfoldable pub fill_vectors : ℕ → List ℕ → ℕ → ℕ → List ℕ
fill_vectors zero mem dest val = mem
fill_vectors (suc rounds) mem dest val =
    fill_vectors rounds (write mem dest (replicate 32 val)) (dest + 32) val

unfoldable pub fill_tail : ℕ → List ℕ → ℕ → ℕ → List ℕ
fill_tail zero mem dest_end val = mem
fill_tail (suc left) mem dest_end val = write mem (dest_end - 32) (replicate 32 val)

unfoldable pub memset_avx2 : ℕ → List ℕ → ℕ → ℕ → ℕ → List ℕ
unfolding memset fill_vectors prologue tail_size fill_tail
memset_avx2 start mem dest val n =
    let head = prologue (start + dest) in
    let aligned = memset head mem dest val in
    let looped = fill_vectors ((n - head) / 32) aligned (dest + head) val in
    let done = fill_tail (tail_size (start + dest) n) looped (dest + n) val in
    let small = memset n mem dest val in if ltb n 32 then small else done

-- What is written to the standard output. `stack` is the memory from the array on, and the string
-- stands behind the array's `length (c_str str) + 2` bytes.
unfoldable pub puts : List ℕ → List ℕ → List ℕ
unfolding memcpy
puts array str =
    let len = length (c_str str) in
    let copied = memcpy len (array ++ str) 0 (length array) in
    take (len + 1) (set (set copied len 10) (len + 1) 0)
