-- ===== src/Main/Publish.antt =====
-- Published ports and volumes: what their arguments mean.
use cruntm.Base.{
  ℕ, suc, ◌%◌, ◌^◌, ◌<◌, ◌≡◌, refl, sym, ap, ◌∙◌, false, some, [], ◌∷◌, ◌++◌, append-nil, arith,
}
use cruntm.Text.{Bytes, codes, strncpy, is_digit, digits, decimal, atoi, to_uint16}
use cruntm.Text.Decimal.{AllDigits, digits-AllDigits, atoi-decimal}
use cruntm.Text.Laws.{Lacks, strchr-append, strchr-eq-none}
use cruntm.Main.{port_behind_colon, parse_port}

AllDigits-Lacks : (d : ℕ) (s : Bytes) → is_digit d ≡ false → AllDigits s → Lacks d s
AllDigits-Lacks d [] e h = tt
AllDigits-Lacks d (c ∷ s) e h = (ground arith, AllDigits-Lacks d s e h.1)

-- A printed number does not contain a byte that is no digit.
pub decimal-Lacks : (d n : ℕ) → is_digit d ≡ false → Lacks d (decimal n)
unfolding decimal
decimal-Lacks d n e = AllDigits-Lacks d (digits (suc n) n []) e (digits-AllDigits (suc n) n [] tt)

-- A printed number is read modulo 2 ^ 16.
pub read_wrapped : (n : ℕ) → to_uint16 (atoi (decimal n)) ≡ n % 2 ^ 16
unfolding to_uint16
read_wrapped n =
    ap (λ r. to_uint16 (atoi r)) (sym (append-nil (decimal n)))
    ∙ ap to_uint16 (atoi-decimal n [] tt)

read_port : (n : ℕ) → n < 2 ^ 16 → to_uint16 (atoi (decimal n)) ≡ n
read_port n h = read_wrapped n ∙ omega arith

pub colon_ok : is_digit b':' ≡ false
unfolding is_digit
colon_ok = refl

pub slash_ok : is_digit b'/' ≡ false
unfolding is_digit
slash_ok = refl

-- `-p host:container/protocol` publishes those two ports, whatever the protocol is, of which seven
-- bytes are kept; `-p host:container` publishes them for tcp. The ports are below 2 ^ 16.
parse_port-decimal :
    (host container : ℕ) (protocol : Bytes)
    → host < 2 ^ 16
    → container < 2 ^ 16
    → (parse_port (decimal host ++ b':' ∷ (decimal container ++ b'/' ∷ protocol))
        ≡ some (record {
          host_port = host;
          container_port = container;
          protocol = strncpy 7 protocol;
        }))
      × (parse_port (decimal host ++ b':' ∷ decimal container)
          ≡ some (record { host_port = host; container_port = container; protocol = codes "tcp" }))
unfolding parse_port port_behind_colon
parse_port-decimal host container protocol h k =
    let long_text =
      strchr-append b':' (decimal host) (decimal container ++ b'/' ∷ protocol)
        (decimal-Lacks b':' host colon_ok) in
    (
      rw
          (
            long_text,
            strchr-append b'/' (decimal container) protocol (decimal-Lacks b'/' container slash_ok),
            parse_port,
            port_behind_colon,
          )
          (rw (read_port host h, read_port container k) refl),
      rw
          (
            strchr-append b':' (decimal host) (decimal container)
                (decimal-Lacks b':' host colon_ok),
            strchr-eq-none b'/' (decimal container) (decimal-Lacks b'/' container slash_ok),
            parse_port,
            port_behind_colon,
          )
          (rw (read_port host h, read_port container k) refl),
    )
