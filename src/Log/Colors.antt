-- ===== src/Log/Colors.antt =====
-- On a terminal the log shows the same text in colours.
use cruntm.Base.{
  ◌≡◌, refl, sym, ap, ◌∙◌, Bool, true, false, [], ◌∷◌, ◌++◌, append_assoc, arith, ◌==◌,
  if◌then◌else◌,
}
use cruntm.Text.{Bytes, codes}
use cruntm.Text.Laws.{Lacks}
use cruntm.Types.{LogLevel, debug, info, warn, error_level, fatal}
use cruntm.Log.{color_gray, color_reset, level_color, level_string, left_five, spaces, header}

-- What a terminal shows: a sequence from the escape character to the next `m` sets a colour. The mark
-- says whether the text begins inside such a sequence.
unfoldable pub shown_from : Bool → Bytes → Bytes
shown_from inside [] = []
shown_from true (c ∷ cs) =
    let within = shown_from true cs in
    let behind = shown_from false cs in if c == b'm' then behind else within
shown_from false (c ∷ cs) =
    let within = shown_from true cs in
    let behind = shown_from false cs in if c == 0o33 then within else c ∷ behind

abbrev pub shown : Bytes → Bytes
shown = shown_from false

shown-append : (plain rest : Bytes) → Lacks 0o33 plain → shown (plain ++ rest) ≡ plain ++ shown rest
unfolding shown_from
shown-append [] rest h = refl
shown-append (c ∷ plain) rest h = ground (arith, shown-append plain rest h.1)

shown_gray : (rest : Bytes) → shown (color_gray ++ rest) ≡ shown rest
unfolding shown_from codes
shown_gray rest = refl

shown_reset : (rest : Bytes) → shown (color_reset ++ rest) ≡ shown rest
unfolding shown_from codes
shown_reset rest = refl

shown-level_color :
    (level : LogLevel) (rest : Bytes) → shown (level_color level ++ rest) ≡ shown rest
unfolding shown_from codes level_color
shown-level_color debug rest = refl
shown-level_color info rest = refl
shown-level_color warn rest = refl
shown-level_color error_level rest = refl
shown-level_color fatal rest = refl

level-Lacks : (level : LogLevel) → Lacks 0o33 (left_five (level_string level))
unfolding codes level_string left_five spaces
level-Lacks debug = ground arith
level-Lacks info = ground arith
level-Lacks warn = ground arith
level-Lacks error_level = ground arith
level-Lacks fatal = ground arith

close-Lacks : Lacks 0o33 (codes "] ")
unfolding codes
close-Lacks = ground arith

space-Lacks : Lacks 0o33 (codes " ")
unfolding codes
space-Lacks = ground arith

-- The front of a line, whole, with a text behind it.
abbrev front : Bytes → Bytes → Bytes → Bytes → Bytes
front timestamp color name rest = b'[' ∷ (timestamp ++ (codes "] " ++ (color ++ (name ++ rest))))

header_on_terminal :
    (timestamp message : Bytes) (level : LogLevel)
    → header true timestamp level ++ message
      ≡ color_gray
        ++ front timestamp
            (level_color level)
            (left_five (level_string level))
            (color_reset ++ (codes " " ++ message))
unfolding header
header_on_terminal timestamp message level = simp append_assoc

header_off_terminal :
    (timestamp message : Bytes) (level : LogLevel)
    → header false timestamp level ++ message
      ≡ front timestamp [] (left_five (level_string level)) (codes " " ++ message)
unfolding header
header_off_terminal timestamp message level = simp append_assoc

-- Colours in front of the level and behind it are not seen.
shown-front :
    (timestamp color rest : Bytes) (level : LogLevel)
    → Lacks 0o33 timestamp
    → ((r : Bytes) → shown (color ++ r) ≡ shown r)
    → shown (front timestamp color (left_five (level_string level)) rest)
      ≡ front timestamp [] (left_five (level_string level)) (shown rest)
shown-front timestamp color rest level h unseen =
    let name = left_five (level_string level) in
    shown-append (b'[' ∷ timestamp) (codes "] " ++ (color ++ (name ++ rest))) (refl, h)
    ∙ ap (λ (r : Bytes). b'[' ∷ (timestamp ++ r))
        (shown-append (codes "] ") (color ++ (name ++ rest)) close-Lacks
          ∙ ap (λ (r : Bytes). codes "] " ++ r)
              (unseen (name ++ rest) ∙ shown-append name rest (level-Lacks level)))

-- A terminal shows the coloured line as the plain one, if the time has no escape character, and
-- whatever the message is: the same text behind the front, and the same front.
pub header-shown :
    (timestamp message : Bytes) (level : LogLevel)
    → Lacks 0o33 timestamp
    → (shown (header true timestamp level ++ message)
        ≡ shown (header false timestamp level ++ message))
      × (shown (header false timestamp level ++ message)
          ≡ header false timestamp level ++ shown message)
header-shown timestamp message level h =
    let name = left_five (level_string level) in
    let space = shown-append (codes " ") message space-Lacks in
    let plain =
      ap shown (header_off_terminal timestamp message level)
      ∙ shown-front timestamp [] (codes " " ++ message) level h (λ r. refl)
      ∙ ap (front timestamp [] name) space in
    let colored =
      ap shown (header_on_terminal timestamp message level)
      ∙ shown_gray _
      ∙ shown-front timestamp (level_color level) (color_reset ++ (codes " " ++ message)) level h
          (shown-level_color level)
      ∙ ap (front timestamp [] name) (shown_reset (codes " " ++ message) ∙ space) in
    (colored ∙ sym plain, plain ∙ sym (header_off_terminal timestamp (shown message) level))
