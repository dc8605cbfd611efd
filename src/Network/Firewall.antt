-- ===== src/Network/Firewall.antt =====
-- The rules that iptables holds, and that the removal of the port forwarding restores them.
use mathlib.Core.Path.{subst}
use mathlib.Core.Quot
use mathlib.Core.Quot.{Quot}
use cruntm.Base.{
  ℕ, ◌+◌, ◌-◌, ◌≤◌, ◌<◌, ◌≡◌, refl, sym, ◌∙◌, inl, inr, false, ◌&&◌, List, [], ◌∷◌, arith, take,
  All, ltb, ◌==◌, ltb→lt, Bool-cases, if◌then◌else◌,
}
use cruntm.Text.{Bytes, codes, snprintf}
use cruntm.Text.Laws.{equal, equal_iff}
use cruntm.Types.{PortMapping}
use cruntm.Host.{Host, Trace, Call, system, Reply, is_zero}
use cruntm.Commands.{
  add_dnat_command, add_forward_command, delete_dnat_command, delete_forward_command,
}
use cruntm.Network.{exec_cmd, network_setup_port_forwarding, network_remove_port_forwarding}
use cruntm.Network.Ports.{undo, undo-add_dnat_command, undo-add_forward_command, deletions}

-- What a command of iptables is to do with a rule: its first mark, " -A " or " -D ".
pub data Action : Type 0 where
  appends deletes other : Action

unfoldable pub mark : Bytes → Action
mark (a ∷ b ∷ c ∷ d ∷ rest) =
    let later = mark (b ∷ c ∷ d ∷ rest) in
    if a == b' ' && b == b'-' && d == b' '
    then (if c == b'A' then appends else if c == b'D' then deletes else later)
    else later
mark s = other

-- Only the commands of iptables change its rules.
unfoldable pub action : Bytes → Action
action cmd = if equal (take 9 cmd) (codes "iptables ") then mark cmd else other

unfoldable pub count : Bytes → List Bytes → ℕ
count r [] = 0
count r (x ∷ xs) = (if equal x r then 1 else 0) + count r xs

unfoldable pub remove_first : Bytes → List Bytes → List Bytes
remove_first r [] = []
remove_first r (x ∷ xs) = if equal x r then xs else x ∷ remove_first r xs

-- A rule is written as the command that deletes it.
abbrev pub act : Action → Bytes → List Bytes → List Bytes
act appends cmd table = undo cmd ∷ table
act deletes cmd table = remove_first cmd table
act other cmd table = table

unfoldable pub rules_step : Call → Reply → List Bytes → List Bytes
rules_step (system cmd) r table = if is_zero r then act (action cmd) cmd table else table
rules_step _ r table = table

-- The rules that the commands of the trace have appended and not deleted.
unfoldable pub rules : Trace → List Bytes
unfolding rules_step
rules [] = []
rules (e ∷ t) = rules_step e.call e.reply (rules t)

-- The same rules, as often; iptables takes the rules of these tables in any order.
abbrev pub SameRules : List Bytes → List Bytes → Type 0
SameRules xs ys = (r : Bytes) → count r xs ≡ count r ys

abbrev pub Table : Type 0
Table = Quot SameRules

-- The documented behaviour of `iptables -D`: it succeeds exactly if there is such a rule.
pub record IsIptables (H : Host) : Type 0 where
  pub removes :
      (t : Trace) (cmd : Bytes)
      → action cmd ≡ deletes
      → is_zero (H.answer t (system cmd)) ≡ ltb 0 (count cmd (rules t))

count-remove_first :
    (r d : Bytes) (table : List Bytes)
    → count r (remove_first d table) ≡ count r table - (if equal d r then 1 else 0)
unfolding count remove_first
count-remove_first r d [] = ground arith
count-remove_first r d (x ∷ table) = elim (Bool-cases (equal x d)) [
  | inl e ↦
      let same : x ≡ d = (equal_iff x d).0 e in rw (e, same, remove_first, count) (omega arith)
  | inr e ↦ elim (Bool-cases (equal d r)) [
    | inl k ↦
        let same : d ≡ r = (equal_iff d r).0 k in
        let other_rule = subst (λ y. equal x y ≡ false) same e in
        ground (arith, count-remove_first r d table)
    | inr k ↦ ground (arith, count-remove_first r d table)
  ]
]

module _ (H : Host) where
  append_step :
      (cmd r : Bytes) (t : Trace)
      → action cmd ≡ appends
      → (count r (rules t) ≤ count r (rules (exec_cmd H cmd t).1))
        × (count r (rules (exec_cmd H cmd t).1)
            ≤ (if equal (undo cmd) r then 1 else 0) + count r (rules t))
  unfolding exec_cmd rules count
  append_step cmd r t h = ground (arith, h)

  delete_step :
      IsIptables H
      → (cmd r : Bytes) (t : Trace) → action cmd ≡ deletes
      → count r (rules (exec_cmd H cmd t).1) ≡ count r (rules t) - (if equal cmd r then 1 else 0)
  unfolding exec_cmd rules
  delete_step iptables cmd r t h = elim (Bool-cases (is_zero (H.answer t (system cmd)))) [
    | inl e ↦ rw (e, h) (count-remove_first r cmd (rules t))
    | inr e ↦ rw e (elim (Bool-cases (equal cmd r)) [
      | inl k ↦
          let same : cmd ≡ r = (equal_iff cmd r).0 k in
          let none_left =
            subst (λ y. ltb 0 (count y (rules t)) ≡ false) same
              (sym (iptables.removes t cmd h) ∙ e) in
          ground arith
      | inr k ↦ rw k (omega arith)
    ])
  ]

dnat_appends : (ip : Bytes) (pm : PortMapping) → action (add_dnat_command ip pm) ≡ appends
unfolding action mark equal add_dnat_command codes snprintf take
dnat_appends ip pm = refl

forward_appends : (ip : Bytes) (pm : PortMapping) → action (add_forward_command ip pm) ≡ appends
unfolding action mark equal add_forward_command codes snprintf take
forward_appends ip pm = refl

dnat_deletes : (ip : Bytes) (pm : PortMapping) → action (delete_dnat_command ip pm) ≡ deletes
unfolding action mark equal delete_dnat_command codes snprintf take
dnat_deletes ip pm = refl

forward_deletes : (ip : Bytes) (pm : PortMapping) → action (delete_forward_command ip pm) ≡ deletes
unfolding action mark equal delete_forward_command codes snprintf take
forward_deletes ip pm = refl

module _ (H : Host) (ip : Bytes) where
  -- The set-up takes no rule away, and adds no more than the rules of the ports.
  pub setup-count :
      (ports : List PortMapping) (r : Bytes) (t : Trace)
      → let t' = (network_setup_port_forwarding H ip ports t).1 in
        (count r (rules t) ≤ count r (rules t'))
        × (count r (rules t') ≤ count r (deletions ip ports) + count r (rules t))
  unfolding network_setup_port_forwarding deletions count
  setup-count [] r t = (omega arith, omega arith)
  setup-count (pm ∷ ports) r t =
      let dnat = add_dnat_command ip pm in
      let forward = add_forward_command ip pm in
      let t₁ = (exec_cmd H dnat t).1 in
      let t₂ = (exec_cmd H forward t₁).1 in
      let h₁ = rw (undo-add_dnat_command ip pm) at (append_step H dnat r t (dnat_appends ip pm)) in
      let h₂ =
        rw (undo-add_forward_command ip pm) at
          (append_step H forward r t₁ (forward_appends ip pm)) in
      let k₁ = setup-count ports r t₁ in
      let k₂ = setup-count ports r t₂ in ground (arith, h₁, h₂, k₁, k₂)

  remove-count :
      IsIptables H
      → (ports : List PortMapping) (r : Bytes) (t : Trace)
      → count r (rules (network_remove_port_forwarding H ip ports t).1)
        ≡ count r (rules t) - count r (deletions ip ports)
  unfolding network_remove_port_forwarding deletions count
  remove-count iptables [] r t = omega arith
  remove-count iptables (pm ∷ ports) r t =
      let dnat = delete_dnat_command ip pm in
      let forward = delete_forward_command ip pm in
      let t₁ = (exec_cmd H dnat t).1 in
      let t₂ = (exec_cmd H forward t₁).1 in
      omega (
        arith,
        remove-count iptables ports r t₂,
        delete_step H iptables forward r t₁ (forward_deletes ip pm),
        delete_step H iptables dnat r t (dnat_deletes ip pm),
      )

-- No rule of the ports is there.
abbrev pub IsFree : Bytes → List PortMapping → Trace → Type 0
IsFree ip ports t = All (λ r. count r (rules t) ≡ 0) (deletions ip ports)

count-All :
    (table items : List Bytes) (r : Bytes)
    → All (λ x. count x table ≡ 0) items
    → 0 < count r items
    → count r table ≡ 0
unfolding count
count-All table [] r h k = absurd (omega arith)
count-All table (x ∷ items) r h k = elim (Bool-cases (equal x r)) [
  | inl e ↦ subst (λ y. count y table ≡ 0) ((equal_iff x r).0 e) h.0
  | inr e ↦ count-All table items r h.1 (ground arith)
]

-- Between the two tables there is nothing but rules of the ports.
abbrev pub AddsPorts : Bytes → List PortMapping → List Bytes → List Bytes → Type 0
AddsPorts ip ports before after =
    (r : Bytes)
    → (count r before ≤ count r after)
      × (count r after ≤ count r (deletions ip ports) + count r before)

pub remove_restores :
    (H : Host)
    → IsIptables H
    → (ip : Bytes) (ports : List PortMapping) (t t' : Trace) → IsFree ip ports t
    → AddsPorts ip ports (rules t) (rules t')
    → ◌≡◌ {A = Table}
        (Quot.mk (rules (network_remove_port_forwarding H ip ports t').1))
        (Quot.mk (rules t))
remove_restores H iptables ip ports t t' free added = Quot.sound λ r.
    elim (Bool-cases (ltb 0 (count r (deletions ip ports)))) [
      | inl e ↦ omega (
        arith,
        remove-count H ip iptables ports r t',
        added r,
        count-All (rules t) (deletions ip ports) r free (ltb→lt _ _ e),
      )
      | inr e ↦ ground (arith, remove-count H ip iptables ports r t', added r)
    ]
