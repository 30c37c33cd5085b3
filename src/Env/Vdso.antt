-- ===== src/Env/Vdso.antt =====
-- `cg_vdso_func` of src/platform/cg_env.c, `cg_env_write_stdout`, and `cg_time_init` of
-- src/platform/cg_time.c. The vDSO is what stands at the offsets of its image: the arrays of the
-- types of <elf.h>, and the bytes of its strings.
pub mod Lookup
use compuguessr.Base.{
  ℕ, zero, suc, ◌+◌, ◌-◌, Bool, true, false, Option, none, some, List, [], ◌∷◌, ◌++◌, length, ◌==◌,
  if◌then◌else◌,
}
use compuguessr.Base.Text.{codes, c_str}
use compuguessr.Base.Words.{u64}
use compuguessr.Util.Memory.{memcmp_avx2, is_zero}
use compuguessr.Env.{Env, AuxType, vdso_base_addr}

pub data PhdrType : Type 0 where
  dynamic : PhdrType
  other_segment : ℕ → PhdrType

pub data DynTag : Type 0 where
  null_tag strtab symtab : DynTag
  other_tag : ℕ → DynTag

-- The two fields of an `Elf64_Sym` that are read.
pub record Sym : Type 0 where
  pub st_name : ℕ
  pub st_value : ℕ

-- The first `e_phnum` program headers, with `p_offset`; the dynamic section at an offset, with the
-- value or offset of each entry; the symbol of a number in the table at an offset; and the bytes
-- from an offset on.
pub record Image : Type 0 where
  pub phdrs : List (PhdrType × ℕ)
  pub dyns : ℕ → List (DynTag × ℕ)
  pub syms : ℕ → ℕ → Sym
  pub bytes : ℕ → List ℕ

unfoldable pub find_dynamic : List (PhdrType × ℕ) → Option ℕ
find_dynamic [] = none
find_dynamic ((dynamic, p_offset) ∷ phdr) = some p_offset
find_dynamic ((other_segment n, p_offset) ∷ phdr) = find_dynamic phdr

-- `symtab` and `strtab`, as far as they have been found.
unfoldable pub find_tables : Option ℕ → Option ℕ → List (DynTag × ℕ) → Option ℕ × Option ℕ
find_tables sym str [] = (sym, str)
find_tables sym str ((null_tag, d) ∷ dyn) = (sym, str)
find_tables sym str ((strtab, d) ∷ dyn) = find_tables sym (some d) dyn
find_tables sym str ((symtab, d) ∷ dyn) = find_tables (some d) str dyn
find_tables sym str ((other_tag n, d) ∷ dyn) = find_tables sym str dyn

abbrev pub has_name : Image → ℕ → List ℕ → Sym → Bool
has_name image str name sym =
    let same =
      is_zero (memcmp_avx2 (image.bytes (str + sym.st_name)) name (length (c_str name) + 1)) in
    if sym.st_name == 0 then false else same

-- The loop over the symbols: `left` of them from `i` on.
unfoldable pub find_sym : Image → ℕ → ℕ → List ℕ → ℕ → ℕ → Option Sym
find_sym image sym str name zero i = none
find_sym image sym str name (suc left) i =
    let rest = find_sym image sym str name left (i + 1) in
    if has_name image str name (image.syms sym i) then some (image.syms sym i) else rest

abbrev pub address_of : ℕ → Option Sym → ℕ
address_of base none = 0
address_of base (some sym) = u64 (base + sym.st_value)

abbrev pub in_tables : ℕ → Image → List ℕ → Option ℕ × Option ℕ → ℕ
in_tables base image name (some sym, some str) = address_of base (find_sym image sym str name 50 0)
in_tables base image name (some sym, none) = 0
in_tables base image name (none, str) = 0

abbrev pub in_section : ℕ → Image → List ℕ → Option ℕ → ℕ
in_section base image name none = 0
in_section base image name (some dyn) =
    in_tables base image name (find_tables none none (image.dyns dyn))

-- With a name that is not null; 0 is the null pointer.
unfoldable pub vdso_func : ℕ → Image → List ℕ → ℕ
unfolding find_dynamic find_tables find_sym
vdso_func base image name =
    let found = in_section base image name (find_dynamic image.phdrs) in
    if base == 0 then 0 else found

-- What `g_vdso_gettime` becomes; `image` is the memory at an address.
unfoldable pub time_init : (ℕ → Image) → List (AuxType × ℕ) → ℕ
unfolding vdso_func vdso_base_addr
time_init image auxv =
    let base = vdso_base_addr auxv in
    vdso_func base (image base) (codes "__vdso_clock_gettime" ++ 0 ∷ [])

-- `cg_env_write_stdout`: the bytes of the three vectors.
unfoldable pub write_stdout : Env → List ℕ
write_stdout env = codes "FASTCGI_SOCK = " ++ (c_str env.fastcgi_sock ++ codes "\n")
