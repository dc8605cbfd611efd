-- ===== src/Network/Address.antt =====
-- The address that network_allocate_ip hands out.
use Prim.Native.Nat.{bit_xor}
use cruntm.Base.{
  ℕ, ◌+◌, ◌-◌, ◌^◌, ◌≤◌, ◌<◌, ◌≡◌, ap, ◌≢◌, some, [], ◌∷◌, ◌++◌, append_assoc, arith, length,
  length-append, take-eq_self,
}
use cruntm.Text.{Bytes, codes, strncpy, strchr}
use cruntm.Types.{ok}
use cruntm.Host.{Host, Trace, call, time, getpid, srand, rand, result}
use cruntm.Network.{
  Inet, add_address, room_behind, printed_in, append_mask, offset_of, draw_address,
  network_allocate_ip,
}

offset_of_bounds : (r : ℕ) → (2 ≤ offset_of r) × (offset_of r ≤ 254)
unfolding offset_of
offset_of_bounds r = omega arith

add_address_ne :
    (a k : ℕ)
    → 2 ≤ k
    → k ≤ 254
    → a < 2 ^ 32
    → (add_address a k ≢ a) × (add_address a k ≢ add_address a 1)
unfolding add_address
add_address_ne a k h h' b = omega arith

room_behind-eq : (n : ℕ) (text : Bytes) → length text < n → room_behind n text ≡ n - length text - 1
room_behind-eq n text h = ground (arith, h)

printed_in-eq : (n : ℕ) (buffer text : Bytes) → length text < n → printed_in n buffer text ≡ text
printed_in-eq n buffer text h = ground (arith, h)

-- With room for the address, the slash and the mask nothing is cut.
append_mask-eq :
    (n : ℕ) (buffer address mask : Bytes)
    → length address + length mask + 1 < n
    → append_mask n (printed_in n buffer address) mask ≡ address ++ b'/' ∷ mask
unfolding append_mask codes
append_mask-eq n buffer address mask h =
    let with_slash = address ++ b'/' ∷ [] in
    let longer = length-append {A = ℕ} address (b'/' ∷ []) in
    rw (printed_in-eq n buffer address (omega (arith, h))) (
      rw (room_behind-eq n address (omega (arith, h))) (
        rw (take-eq_self {A = ℕ} (n - length address - 1) (b'/' ∷ []) (omega arith)) (
          rw (room_behind-eq n with_slash (omega (arith, h, longer))) (
            rw (take-eq_self {A = ℕ} (n - length with_slash - 1) mask (omega (arith, longer)))
              (append_assoc {A = ℕ} address (b'/' ∷ []) mask)))))

module _ (H : Host) (I : Inet) where
  -- A subnet whose copy of 64 bytes at most reads "network/mask", and whose address inet_pton reads as
  -- a 32 bit number, gives an address at a distance of 2 to 254 from it, with the same mask: neither
  -- the address of the subnet itself nor the first one, which is the gateway's. The buffer has room
  -- for every printed address, the slash, the mask and the NUL.
  pub network_allocate_ip_lem :
      (subnet network mask buffer : Bytes) (n : ℕ) (t : Trace)
      → strchr b'/' (strncpy 64 subnet) ≡ some (network, mask)
      → I.parse network < 2 ^ 32
      → ((a : ℕ) → length (I.print a) + length mask + 1 < n)
      → (k : ℕ) × (2 ≤ k)
        × (k ≤ 254)
        × ((network_allocate_ip H I subnet n buffer t).0
            ≡ (ok, I.print (add_address (I.parse network) k) ++ b'/' ∷ mask))
        × (add_address (I.parse network) k ≢ I.parse network)
        × (add_address (I.parse network) k ≢ add_address (I.parse network) 1)
  unfolding network_allocate_ip draw_address
  network_allocate_ip_lem subnet network mask buffer n t s small room =
      let t₁ = (call H time t).1 in
      let t₂ = (call H getpid t₁).1 in
      let t₃ =
        (call H (srand (bit_xor (result (H.answer t time)) (result (H.answer t₁ getpid)))) t₂).1 in
      let k = offset_of (result (H.answer t₃ rand)) in
      let (low, high) = offset_of_bounds (result (H.answer t₃ rand)) in
      let address = add_address (I.parse network) k in
      let (ne, ne') = add_address_ne (I.parse network) k low high small in
      (
        k,
        low,
        high,
        rw s (ap (λ x. (ok, x)) (append_mask-eq n buffer (I.print address) mask (room address))),
        ne,
        ne',
      )
