-- ===== src/Tests/Boot.antt =====
-- The program from its start on.
use compuguessr.Base.{
  ℕ, ◌≤◌, ◌≡◌, refl, Option, some, List, [], ◌∷◌, ◌++◌, arith, Returns, replicate, length, ◌==◌,
  if◌then◌else◌,
}
use compuguessr.Base.Int.{pos}
use compuguessr.Base.Text.{codes, c_str}
use compuguessr.Env.{AuxType, null, phdr, sysinfo_ehdr, vdso_base_addr}
use compuguessr.Env as Env_mod
use compuguessr.Env.Vdso.{
  Image, Sym, dynamic, other_segment, strtab, symtab, null_tag, other_tag, find_dynamic,
  find_tables, vdso_func, address_of,
}
use compuguessr.Env.Vdso.Lookup.{IsFound, vdso_func-IsFound}
use compuguessr.Util.Memory.{memcmp_avx2, memcmp_blocks, memcmp}
use compuguessr.SessionDb
use compuguessr.UserDb
use compuguessr.Uring.{Ring}
use compuguessr.App.Accepting.{Opening}
use compuguessr.App.Start.{Stack, main_init, startup}
use compuguessr.App.Start.Files.{AreSound}
use compuguessr.App.Start.Serves.{Starts, Begins, startup-Starts}
use compuguessr.Tests.Server.{sums, table, table-IsSorted}
use compuguessr.Tests.Peers.{file}
use compuguessr.Tests.Platform.{ring}

abbrev blank_sym : Sym
blank_sym = record { st_name = 0; st_value = 0 }

-- The third symbol is the one that is looked for.
abbrev sym_at : ℕ → Sym
sym_at i = if i == 2 then record { st_name = 5; st_value = 2592 } else blank_sym

abbrev image : Image
image = record {
  phdrs = (other_segment 1, 0) ∷ (dynamic, 800) ∷ [];
  dyns = λ at. (strtab, 600) ∷ (other_tag 4, 300) ∷ (symtab, 400) ∷ (null_tag, 0) ∷ [];
  syms = λ at i. sym_at i;
  bytes = λ at. codes "__vdso_clock_gettime" ++ replicate 30 0;
}

abbrev gettime_name : List ℕ
gettime_name = codes "__vdso_clock_gettime" ++ 0 ∷ []

vdso_func-IsFound_example :
    (r : Option Sym) × (vdso_func 0x7FFF0000 image gettime_name ≡ address_of 0x7FFF0000 r)
    × IsFound image 400 600 gettime_name 0 50 r
unfolding find_dynamic find_tables c_str replicate
vdso_func-IsFound_example =
    vdso_func-IsFound 0x7FFF0000 image gettime_name 800 400 600 (omega arith) refl refl
      (omega arith) (λ i h. omega arith)

-- Both files are new.
abbrev pub stack : Stack
stack = record {
  envp = codes "HOME=/root" ∷ codes "FASTCGI_SOCK=/run/quiz.sock" ∷ [];
  auxv = (phdr, 4194368) ∷ (sysinfo_ehdr, 0x7FFF0000) ∷ (null, 0) ∷ [];
  image = λ at. image;
  sessions_file = some (0, SessionDb.new_file);
  users_file = some (0, UserDb.new_file);
}

pub stack-AreSound : AreSound stack
stack-AreSound = record {
  sessions = λ size db e nonempty. absurd (ground (arith, e, nonempty));
  users = λ size db e nonempty. absurd (ground (arith, e, nonempty));
}

abbrev pub opening : Opening file
opening = record { socket = pos 3; bind = pos 0; listen = pos 0 }

abbrev pub idle_ring : Ring
idle_ring = record ring { cq_tail = 0 }

pub path_fits : let g = main_init stack in length (c_str g.env.fastcgi_sock) ≤ 108
unfolding main_init Env_mod.init c_str memcmp_avx2 memcmp_blocks memcmp
path_fits = omega arith

startup-Starts_example :
    Returns (startup sums file idle_ring 0x400000 4096 stack opening 1709210096) (
      let g = main_init stack in
      Starts (Begins sums table table-IsSorted file idle_ring 0x400000 4096 g) g)
startup-Starts_example =
    startup-Starts sums table table-IsSorted file idle_ring 0x400000 4096 stack opening 1709210096
      stack-AreSound path_fits
