-- ===== src/Tests/Logs.antt =====
-- The theorems on the log and on printed sizes at concrete inputs.
use cruntm.Base.{
  ℕ, zero, suc, ◌/◌, ◌%◌, ◌^◌, ◌≤◌, ◌<◌, ◌≡◌, refl, ◌⊎◌, ◌↔◌, true, false, not, [], ◌∷◌, ◌++◌,
  arith, length, leb, ◌==◌, if◌then◌else◌,
}
use cruntm.Base.Int.{pos}
use cruntm.Text.{Bytes, codes, snprintf, decimal}
use cruntm.Text.Laws.{Lacks}
use cruntm.Types.{info, warn, fatal}
use cruntm.Host.{call, isatty, gettimeofday, result}
use cruntm.Utils.{unit_name, format_size}
use cruntm.Utils.Format.{divided, ComparesExactly, IsUnitOf, format_size_lem}
use cruntm.Log.{level_number, three_digits, header, returned, cr_log}
use cruntm.Log.Lines.{HasStampLength, err_text, ending, cr_log_lem}
use cruntm.Log.Colors.{shown, header-shown}
use cruntm.Tests.Hosts.{accepting, whole_numbers}

-- Every time is printed as the same one.
abbrev noon : ℕ → Bytes
noon seconds = codes "2024-02-29 12:00:00"

noon-HasStampLength : HasStampLength noon
unfolding codes
noon-HasStampLength seconds = refl

cr_log_lem_example :
    let (now, u) = call accepting gettimeofday [] in
    let colored = not (result (accepting.answer u (isatty 2)) == 0) in
    let seconds = result now / 1000000 in
    let milliseconds = result now % 1000000 / 1000 in
    let (ended, t') = cr_log accepting noon info fatal (codes "no root") [] in
    ((level_number fatal < level_number info) × (ended ≡ returned) × (t' ≡ []))
    ⊎ ((level_number info ≤ level_number fatal)
        × (ended ≡ ending fatal)
        × ((stamp : Bytes) × (length stamp ≡ 23)
            × (stamp ≡ noon seconds ++ (b'.' ∷ three_digits milliseconds))
            × (err_text t'
                ≡ err_text [] ++ (header colored stamp fatal ++ (codes "no root" ++ codes "\n")))))
cr_log_lem_example = cr_log_lem accepting noon noon-HasStampLength info fatal (codes "no root") []

noon-Lacks : Lacks 0o33 (codes "2024-02-29 12:00:00.000")
unfolding codes
noon-Lacks = ground arith

header-shown_example :
    (shown (header true (codes "2024-02-29 12:00:00.000") warn ++ codes "slow")
      ≡ shown (header false (codes "2024-02-29 12:00:00.000") warn ++ codes "slow"))
    × (shown (header false (codes "2024-02-29 12:00:00.000") warn ++ codes "slow")
        ≡ header false (codes "2024-02-29 12:00:00.000") warn ++ shown (codes "slow"))
header-shown_example = header-shown (codes "2024-02-29 12:00:00.000") (codes "slow") warn noon-Lacks

same_tests : (a b c d : ℕ) → (a ≤ b) ↔ (c ≤ d) → leb a b ≡ leb c d
same_tests a b c d h = ground arith

compares_whole : (n k : ℕ) → k < 4 → (1024 ≤ divided whole_numbers k n) ↔ (1024 ^ suc k ≤ n)
unfolding divided
compares_whole n zero small = ground arith
compares_whole n (suc zero) small = ground arith
compares_whole n (suc (suc zero)) small = ground arith
compares_whole n (suc (suc (suc zero))) small = ground arith
compares_whole n (suc (suc (suc (suc k)))) small = absurd (omega arith)

whole_numbers-ComparesExactly : ComparesExactly whole_numbers
whole_numbers-ComparesExactly = record {
  compares = λ n k h small. same_tests 1024 _ (1024 ^ suc k) n (compares_whole n k small);
}

format_size_lem_example :
    (k : ℕ) × IsUnitOf 5000000 k
    × (format_size whole_numbers (pos 5000000) 32
        ≡ snprintf 32 (
            if k == 0
            then decimal 5000000 ++ (b' ' ∷ unit_name k)
            else whole_numbers.print_two
                (divided whole_numbers k (whole_numbers.of_int (pos 5000000)))
              ++ (b' ' ∷ unit_name k)))
format_size_lem_example =
    format_size_lem whole_numbers whole_numbers-ComparesExactly 5000000 (omega arith) 32
