-- ===== src/Program/Terminal.antt =====
-- src/terminal_ui.h: the lines that the broker writes on the terminal.
use tinymq_broker.Base.{zero, suc, ℕ, ◌+◌, ◌/◌, ◌%◌, Bytes, [], ◌∷◌, ◌++◌, true, false, codes, ltb}

-- The digits of n in front of a text; each step takes one digit off.
unfoldable pub digits_onto : ℕ → ℕ → Bytes → Bytes
digits_onto zero n s = s
digits_onto (suc fuel) n s = elim (ltb n 10) [
  | true ↦ (48 + n) ∷ s
  | false ↦ digits_onto fuel (n / 10) ((48 + n % 10) ∷ s)
]

-- `std::to_string` of an unsigned number.
abbrev pub to_string : ℕ → Bytes
to_string n = digits_onto (suc n) n []

abbrev escape : Bytes → Bytes
escape code = 27 ∷ 91 ∷ code ++ codes "m"

abbrev pub reset : Bytes
reset = escape (codes "0")

abbrev red : Bytes
red = escape (codes "31")

abbrev green : Bytes
green = escape (codes "32")

abbrev yellow : Bytes
yellow = escape (codes "33")

abbrev blue : Bytes
blue = escape (codes "34")

abbrev magenta : Bytes
magenta = escape (codes "35")

abbrev cyan : Bytes
cyan = escape (codes "36")

abbrev white : Bytes
white = escape (codes "37")

abbrev bold : Bytes
bold = escape (codes "1")

pub data MessageType : Type 0 where
  info success warning error incoming outgoing system debug : MessageType

-- The strings stay empty where the switch has no case.
unfoldable pub color : MessageType → Bytes
color MessageType.info = blue
color MessageType.success = green
color MessageType.warning = yellow
color MessageType.error = red
color MessageType.incoming = cyan
color MessageType.outgoing = magenta
color MessageType.system = white ++ bold
color MessageType.debug = []

unfoldable pub prefix : MessageType → Bytes
prefix MessageType.info = codes "INFO"
prefix MessageType.success = codes "SUCCESS"
prefix MessageType.warning = codes "WARNING"
prefix MessageType.error = codes "ERROR"
prefix MessageType.incoming = codes "INCOMING"
prefix MessageType.outgoing = codes "OUTGOING"
prefix MessageType.system = codes "SYSTEM"
prefix MessageType.debug = []

-- What `std::localtime` gives of the clock.
pub record LocalTime : Type 0 where
  pub hour : ℕ
  pub minute : ℕ
  pub second : ℕ

abbrev two_digits : ℕ → Bytes
two_digits n = (48 + n / 10) ∷ (48 + n % 10) ∷ []

unfoldable pub get_timestamp : LocalTime → Bytes
get_timestamp t =
    two_digits t.hour ++ (codes ":" ++ (two_digits t.minute ++ (codes ":" ++ two_digits t.second)))

-- The end of a line.
abbrev pub endl : Bytes
endl = 10 ∷ []

unfoldable pub print_message : LocalTime → Bytes → Bytes → MessageType → Bytes
print_message t source message type =
    color type
    ++ (codes "["
        ++ (get_timestamp t
            ++ (codes "] ["
                ++ (prefix type
                    ++ (codes "] [" ++ (source ++ (codes "] " ++ (message ++ (reset ++ endl)))))))))

abbrev pub print_divider : Bytes
print_divider = blue ++ (codes "----------------------------------------" ++ (reset ++ endl))

unfoldable pub print_header : Bytes → Bytes → Bytes
print_header app_name version =
    print_divider
    ++ (bold
        ++ (cyan
            ++ (codes "  "
                ++ (app_name ++ (codes " v" ++ (version ++ (reset ++ (endl ++ print_divider))))))))
