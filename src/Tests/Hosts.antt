-- ===== src/Tests/Hosts.antt =====
-- Concrete hosts, and concrete functions for what the program takes from elsewhere.
use cruntm.Base.{
  ℕ, zero, suc, ◌*◌, ◌/◌, ◌%◌, ◌^◌, ◌≤◌, ◌<◌, ◌≡◌, refl, ap, Bool, false, ◌||◌, [], ◌∷◌, ◌++◌,
  arith, length, length-append, leb, if◌then◌else◌,
}
use cruntm.Base.Int.{pos_part, pos}
use cruntm.Text.{codes, Bytes, is_digit, read_digits, decimal}
use cruntm.Text.Decimal.{Stops, AllDigits, digits-AllDigits, length-digits, read_digits-decimal}
use cruntm.Text.Laws.{equal, equal_refl}
use cruntm.Types.{ok, error, ContainerConfig, Container, created}
use cruntm.Host.{Call, open_file, read, write, mkdir, system, Reply, value, Trace, Host}
use cruntm.Host.Files.{IsWritable}
use cruntm.Cgroup.Stats.{ReadsAtMost, ReadsExactly}
use cruntm.Storage.Directories.{IsFileSystem}
use cruntm.Network.{Inet}
use cruntm.Utils.{Doubles}
use cruntm.Utils.Size.{StopsNumber, IsExact}
use cruntm.Main.Run.{Runtime}
use cruntm.Main.Program.{Getopt}

-- Every call succeeds; a read delivers up to 20 bytes.
unfoldable pub accept : Call → Reply
accept (open_file p f m) = value 3
accept (write fd text) = value (length text)
accept (read fd n) = if leb 20 n then value 20 else value n
accept _ = value 0

unfoldable pub sevens : ℕ → Bytes
sevens zero = []
sevens (suc n) = b'7' ∷ sevens n

abbrev pub accepting : Host
accepting = record { answer = λ t c. accept c; input = λ t c. sevens 20 }

-- Every shell command fails, and all else succeeds.
unfoldable pub reject : Call → Reply
reject (system cmd) = value 1
reject c = value 0

abbrev pub shell_less : Host
shell_less = record { answer = λ t c. reject c; input = λ t c. [] }

-- A host on which the program is not run by root: every call gives 1000.
abbrev pub unprivileged : Host
unprivileged = record { answer = λ t c. value 1000; input = λ t c. [] }

pub accepting-IsWritable : IsWritable accepting
unfolding accept
accepting-IsWritable = record { opens = λ t p f m. (3, refl); writes = λ t fd text. refl }

pub accepting-ReadsAtMost : ReadsAtMost accepting
unfolding accept
accepting-ReadsAtMost t fd n k h = ground arith

pub accepting-ReadsExactly : ReadsExactly accepting 20
unfolding accept sevens
accepting-ReadsExactly = record {
  opens = λ t p f m. (3, refl);
  reads = λ t fd n h. ground arith;
  delivers = λ t fd n h. refl;
}

abbrev made : Bytes → Call → Bool
made p (mkdir q m) = equal q p
made p _ = false

-- A path is there if a mkdir of it was made.
unfoldable pub present : Trace → Bytes → Bool
present [] p = false
present (e ∷ t) p = made p e.call || present t p

pub accepting-IsFileSystem : IsFileSystem accepting present
unfolding present
accepting-IsFileSystem = record {
  makes = λ t p m h. ground (arith, equal_refl p);
  keeps = λ t p q m h. ground arith;
}

-- The four parts of an address in their decimal form.
unfoldable pub dotted : ℕ → Bytes
dotted a =
    decimal (a / 2 ^ 24 % 256)
    ++ (b'.'
        ∷ (decimal (a / 2 ^ 16 % 256)
            ++ (b'.' ∷ (decimal (a / 2 ^ 8 % 256) ++ (b'.' ∷ decimal (a % 256))))))

-- Every text is read as 172.17.0.0.
abbrev pub inet : Inet
inet = record { parse = λ s. 0xAC11_0000; print = dotted }

length-decimal_byte : (n : ℕ) → n < 256 → length (decimal n) ≤ 3
unfolding decimal
length-decimal_byte n h = omega (arith, length-digits 2 (suc n) n [] (omega arith))

pub length-dotted : (a : ℕ) → length (dotted a) ≤ 15
unfolding dotted
length-dotted a =
    let p = decimal (a / 2 ^ 24 % 256) in
    let q = decimal (a / 2 ^ 16 % 256) in
    let r = decimal (a / 2 ^ 8 % 256) in
    let s = decimal (a % 256) in
    omega (
      arith,
      length-append p (b'.' ∷ (q ++ (b'.' ∷ (r ++ (b'.' ∷ s))))),
      length-append q (b'.' ∷ (r ++ (b'.' ∷ s))),
      length-append r (b'.' ∷ s),
      length-decimal_byte (a / 2 ^ 24 % 256) (omega arith),
      length-decimal_byte (a / 2 ^ 16 % 256) (omega arith),
      length-decimal_byte (a / 2 ^ 8 % 256) (omega arith),
      length-decimal_byte (a % 256) (omega arith),
    )

unfoldable pub count_digits : Bytes → ℕ
count_digits [] = 0
count_digits (c ∷ cs) = let rest = suc (count_digits cs) in if is_digit c then rest else 0

-- Whole numbers only, exact without a bound.
abbrev pub whole_numbers : Doubles
whole_numbers = record {
  Double = ℕ;
  strtod = λ s. (read_digits 0 s, count_digits s);
  scaled = λ v k. pos (v * k);
  of_int = pos_part;
  at_least_1024 = leb 1024;
  div_1024 = λ v. v / 1024;
  print_two = λ v. decimal v ++ codes ".00";
}

StopsNumber-Stops : (s : Bytes) → StopsNumber s → Stops s
StopsNumber-Stops [] h = tt
StopsNumber-Stops (c ∷ cs) h = ground arith

count_digits-append :
    (s rest : Bytes) → AllDigits s → Stops rest → count_digits (s ++ rest) ≡ length s
unfolding count_digits
count_digits-append [] [] h k = refl
count_digits-append [] (c ∷ cs) h k = rw (k, count_digits) refl
count_digits-append (c ∷ s) rest h k =
    rw (h.0, count_digits) (ap suc (count_digits-append s rest h.1 k))

decimal-AllDigits : (n : ℕ) → AllDigits (decimal n)
unfolding decimal
decimal-AllDigits n = digits-AllDigits (suc n) n [] tt

pub whole_numbers-IsExact : IsExact whole_numbers
whole_numbers-IsExact = record {
  reads = λ n rest h.
      count_digits-append (decimal n) rest (decimal-AllDigits n) (StopsNumber-Stops rest h);
  scales = λ n m rest h small.
      ap (λ k. pos (k * m)) (read_digits-decimal n rest (StopsNumber-Stops rest h));
}

-- The container that a runtime makes of a configuration.
unfoldable pub fresh_container : ContainerConfig → Container
fresh_container c = record {
  config = c;
  init_pid = pos 4242;
  state = created;
  cgroup_path = [];
  netns_path = [];
  bundle_path = [];
  created_at = pos 0;
  started_at = pos 0;
}

-- A runtime that grants everything without a call.
abbrev pub willing : Runtime
willing = record {
  runtime_init = λ ctx t. ((ok, ctx), t);
  runtime_cleanup = λ ctx t. (ok, t);
  container_create = λ ctx c t. ((ok, fresh_container c), t);
  container_start = λ ctx c t. ((ok, c), t);
  container_delete = λ ctx c t. (ok, t);
}

-- A runtime that cannot even be started.
abbrev pub unwilling : Runtime
unwilling = record willing { runtime_init = λ ctx t. ((error, ctx), t) }

-- No options: all arguments are operands.
abbrev pub no_options : Getopt
no_options = record {
  parse_main = λ args. record { options = []; operands = args };
  parse_run = λ args. record { options = []; operands = args };
}
