-- ===== src/Env.antt =====
-- src/platform/cg_env.c: the environment and the auxiliary vector. `envp` is the list of its
-- strings, each the bytes from its pointer on, and the vector behind it the list of its pairs.
pub mod Settings
pub mod Vdso
use compuguessr.Base.{
  ℕ, zero, suc, ◌+◌, ◌-◌, Bool, true, false, ◌&&◌, Option, none, some, List, [], ◌∷◌, length, ◌==◌,
  if◌then◌else◌,
}
use compuguessr.Base.Text.{codes, c_str}
use compuguessr.Base.Int.{ℤ, sub_ℕ}
use compuguessr.Util.Memory.{memcmp_avx2, is_zero}

pub record Env : Type 0 where
  pub fastcgi_sock : List ℕ
  pub fastcgi_sock_len : ℕ

abbrev pub sock_key : List ℕ
sock_key = codes "FASTCGI_SOCK"

abbrev pub default_env : Env
default_env = record { fastcgi_sock = codes "/tmp/compuguessr.sock"; fastcgi_sock_len = 21 }

-- The inner loop: the bytes before the first `=` or NUL, and what stands from there on.
unfoldable pub split_entry : List ℕ → List ℕ × List ℕ
split_entry [] = ([], [])
split_entry (c ∷ cs) =
    let rest = split_entry cs in
    if c == 0 then ([], c ∷ cs) else if c == b'=' then ([], c ∷ cs) else (c ∷ rest.0, rest.1)

abbrev pub with_value : Env → List ℕ → List ℕ → List ℕ → Env
with_value env entry key [] = env
with_value env entry key (c ∷ value) =
    if c == b'=' && length key == 12 && is_zero (memcmp_avx2 entry sock_key 12)
    then record { fastcgi_sock = value; fastcgi_sock_len = length (c_str value) }
    else env

unfoldable pub read_entry : Env → List ℕ → Env
unfolding split_entry
read_entry env entry = let (key, rest) = split_entry entry in with_value env entry key rest

-- The outer loop.
unfoldable pub read_entries : Env → List (List ℕ) → Env
unfolding read_entry
read_entries env [] = env
read_entries env (entry ∷ envp) = read_entries (read_entry env entry) envp

pub data AuxType : Type 0 where
  null phdr sysinfo_ehdr : AuxType
  other : ℕ → AuxType

-- The loop over the vector, with `g_base_addr` so far; `long` does not wrap here.
unfoldable pub base_addr : ℤ → List (AuxType × ℕ) → ℤ
base_addr base [] = base
base_addr base ((null, a) ∷ auxv) = base
base_addr base ((phdr, a) ∷ auxv) = base_addr (sub_ℕ a 64) auxv
base_addr base ((sysinfo_ehdr, a) ∷ auxv) = base_addr base auxv
base_addr base ((other n, a) ∷ auxv) = base_addr base auxv

-- `cg_env_init`, with pointers that are not null: what is written, and `g_base_addr`.
unfoldable pub init : List (List ℕ) → List (AuxType × ℕ) → ℤ → Env × ℤ
unfolding read_entries base_addr
init envp auxv base = (read_entries default_env envp, base_addr base auxv)

-- `cg_vdso_base_addr`
unfoldable pub vdso_base_addr : List (AuxType × ℕ) → ℕ
vdso_base_addr [] = 0
vdso_base_addr ((null, a) ∷ auxv) = 0
vdso_base_addr ((phdr, a) ∷ auxv) = vdso_base_addr auxv
vdso_base_addr ((sysinfo_ehdr, a) ∷ auxv) = a
vdso_base_addr ((other n, a) ∷ auxv) = vdso_base_addr auxv
