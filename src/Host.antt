-- ===== src/Host.antt =====
-- The system under the program: its calls, in the order in which they are made, and a host that
-- answers each of them knowing everything that was called before. Nothing else is assumed of the
-- kernel and the shell; what a theorem needs of a host is among its hypotheses.
pub mod Files
pub mod Keeps
pub mod Streams
pub mod Mounts
pub mod Plans
pub mod Commands
use cruntm.Base.{ℕ, ◌≡◌, refl, ◌⊎◌, inl, inr, Bool, true, false, Option, List, ◌∷◌, ltb, ◌==◌}
use cruntm.Base.Int.{ℤ}
use cruntm.Text.{Bytes}

-- The flag sets by which the program opens files.
pub data OpenFlags : Type 0 where
  read_only write_only create_truncate create_exclusive : OpenFlags

pub data Call : Type 0 where
  open_file : Bytes → OpenFlags → ℕ → Call
  read : ℕ → ℕ → Call
  write : ℕ → Bytes → Call
  close : ℕ → Call
  stat : Bytes → Call
  access : Bytes → Call
  mkdir : Bytes → ℕ → Call
  rmdir : Bytes → Call
  unlink : Bytes → Call
  mount : Option Bytes → Bytes → Option Bytes → ℕ → Option Bytes → Call
  umount2 : Bytes → ℕ → Call
  pivot_root : Bytes → Bytes → Call
  chdir : Bytes → Call
  sethostname : Bytes → ℕ → Call
  setns : ℕ → ℕ → Call
  usleep : ℕ → Call
  system : Bytes → Call
  time : Call
  getpid : Call
  srand : ℕ → Call
  rand : Call
  fopen : Bytes → Bytes → Call
  fseek_end : ℕ → Call
  ftell : ℕ → Call
  fseek_start : ℕ → Call
  malloc : ℕ → Call
  fread : ℕ → ℕ → Call
  fputs : Bytes → ℕ → Call
  fclose : ℕ → Call
  popen : Bytes → Call
  fscanf_size : ℕ → Call
  pclose : ℕ → Call
  opendir : Bytes → Call
  readdir : ℕ → Call
  closedir : ℕ → Call
  getuid : Call
  getgid : Call
  geteuid : Call
  waitpid : ℤ → Call
  print_out : Bytes → Call
  print_err : Bytes → Call
  flush_err : Call
  gettimeofday : Call
  isatty : ℕ → Call
  exit : ℕ → Call
  -- No call of the system: it delivers what a local array of that many bytes holds before it is
  -- written.
  uninitialised : ℕ → Call

-- A result that is not negative (or a pointer that is not NULL), or -1 (or NULL) with errno.
pub data Reply : Type 0 where
  value : ℕ → Reply
  failed : ℕ → Reply

pub Reply-cases : (r : Reply) → ((n : ℕ) × (r ≡ value n)) ⊎ ((e : ℕ) × (r ≡ failed e))
Reply-cases (value n) = inl (n, refl)
Reply-cases (failed e) = inr (e, refl)

pub record Event : Type 0 where
  pub call : Call
  pub reply : Reply

-- The latest event stands first.
abbrev pub Trace : Type 0
Trace = List Event

-- `answer` is the result of a call, `input` the bytes that it delivers to the program.
pub record Host : Type 0 where
  pub answer : Trace → Call → Reply
  pub input : Trace → Call → Bytes

abbrev pub M : Type 0 → Type 0
M A = Trace → A × Trace

abbrev pub pure : {A : Type 0} → A → M A
pure a t = (a, t)

infixl 5 ◌>>=◌ ◌>>◌
abbrev pub ◌>>=◌ : {A B : Type 0} → M A → (A → M B) → M B
◌>>=◌ m f t = f (m t).0 (m t).1

abbrev pub ◌>>◌ : {A B : Type 0} → M A → M B → M B
◌>>◌ m k t = k (m t).1

-- The test `… < 0`, or `… == NULL`.
abbrev pub is_failure : Reply → Bool
is_failure (value n) = false
is_failure (failed e) = true

abbrev pub result : Reply → ℕ
result (value n) = n
result (failed e) = 0

-- errno is one of those that the caller passes over.
abbrev pub has_errno : ℕ → Reply → Bool
has_errno e (value n) = false
has_errno e (failed k) = k == e

-- The test `system(…) == 0`.
abbrev pub is_zero : Reply → Bool
is_zero (value n) = n == 0
is_zero (failed e) = false

abbrev pub enoent : ℕ
enoent = 2

abbrev pub eexist_errno : ℕ
eexist_errno = 17

abbrev pub einval_errno : ℕ
einval_errno = 22

module _ (H : Host) where
  abbrev pub call : Call → M Reply
  call c t = (H.answer t c, record { call = c; reply = H.answer t c } ∷ t)

  -- The bytes that the call delivers; made just before the call.
  abbrev pub delivered : Call → M Bytes
  delivered c t = (H.input t c, t)
