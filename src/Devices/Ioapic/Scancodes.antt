-- ===== src/Devices/Ioapic/Scancodes.antt =====
-- The scan code tables of kernel/devices/ps2_keyboard.c. A backspace is U+0008.
use Prim.Native.String.{String}
use maken_os.Base.{List, [], ◌∷◌}

unfoldable pub set1_scancodes : List String
set1_scancodes =
    "" ∷ "<ESC>" ∷ "1" ∷ "2" ∷ "3" ∷ "4" ∷ "5" ∷ "6" ∷ "7" ∷ "8" ∷ "9" ∷ "0" ∷ "-" ∷ "="
    ∷ "\u{8} \u{8}" ∷ "\t" ∷ "q" ∷ "w" ∷ "e" ∷ "r" ∷ "t" ∷ "y" ∷ "u" ∷ "i" ∷ "o" ∷ "p" ∷ "[" ∷ "]"
    ∷ "\n" ∷ "^" ∷ "a" ∷ "s" ∷ "d" ∷ "f" ∷ "g" ∷ "h" ∷ "j" ∷ "k" ∷ "l" ∷ ";" ∷ "'" ∷ "`"
    ∷ "<L-SHIFT>" ∷ "\\" ∷ "z" ∷ "x" ∷ "c" ∷ "v" ∷ "b" ∷ "n" ∷ "m" ∷ "," ∷ "." ∷ "/" ∷ "<R-SHIFT>"
    ∷ "*" ∷ "<L-ALT>" ∷ " " ∷ "<C-LOCK>" ∷ "<F1>" ∷ "<F2>" ∷ "<F3>" ∷ "<F4>" ∷ "<F5>" ∷ "<F6>"
    ∷ "<F7>" ∷ "<F8>" ∷ "<F9>" ∷ "<F10>" ∷ "<N-LOCK>" ∷ "<S-LOCK>" ∷ "7" ∷ "8" ∷ "9" ∷ "-" ∷ "4"
    ∷ "5" ∷ "6" ∷ "+" ∷ "1" ∷ "2" ∷ "3" ∷ "0" ∷ "." ∷ "" ∷ "" ∷ "" ∷ "<F11>" ∷ "<F12>" ∷ []

unfoldable pub shift_set1_scancodes : List String
shift_set1_scancodes =
    "" ∷ "" ∷ "!" ∷ "@" ∷ "#" ∷ "$" ∷ "%" ∷ "^" ∷ "&" ∷ "*" ∷ "(" ∷ ")" ∷ "_" ∷ "+" ∷ "\u{8} \u{8}"
    ∷ "\t" ∷ "Q" ∷ "W" ∷ "E" ∷ "R" ∷ "T" ∷ "Y" ∷ "U" ∷ "I" ∷ "O" ∷ "P" ∷ "{" ∷ "}" ∷ "\n" ∷ "^"
    ∷ "A" ∷ "S" ∷ "D" ∷ "F" ∷ "G" ∷ "H" ∷ "J" ∷ "K" ∷ "L" ∷ ":" ∷ "\"" ∷ "~" ∷ "" ∷ "|" ∷ "Z" ∷ "X"
    ∷ "C" ∷ "V" ∷ "B" ∷ "N" ∷ "M" ∷ "<" ∷ ">" ∷ "?" ∷ "" ∷ "*" ∷ "" ∷ " " ∷ "" ∷ "" ∷ "" ∷ "" ∷ ""
    ∷ "" ∷ "" ∷ "" ∷ "" ∷ "" ∷ "" ∷ "" ∷ "" ∷ "" ∷ "" ∷ "" ∷ "" ∷ "" ∷ "" ∷ "" ∷ "" ∷ "" ∷ "" ∷ ""
    ∷ "" ∷ "" ∷ "" ∷ "" ∷ "" ∷ "" ∷ "" ∷ []

unfoldable pub set2_scancodes : List String
set2_scancodes =
    "" ∷ "<F9>" ∷ "" ∷ "<F5>" ∷ "<F3>" ∷ "<F1>" ∷ "<F2>" ∷ "<F12>" ∷ "" ∷ "<F10>" ∷ "<F8>" ∷ "<F6>"
    ∷ "<F4>" ∷ "\t" ∷ "`" ∷ "" ∷ "" ∷ "<L-ALT>" ∷ "<L-SHIFT>" ∷ "" ∷ "<L-CTRL>" ∷ "q" ∷ "1" ∷ ""
    ∷ "" ∷ "" ∷ "z" ∷ "s" ∷ "a" ∷ "w" ∷ "2" ∷ "" ∷ "" ∷ "c" ∷ "x" ∷ "d" ∷ "e" ∷ "4" ∷ "3" ∷ "" ∷ ""
    ∷ " " ∷ "v" ∷ "f" ∷ "t" ∷ "r" ∷ "5" ∷ "" ∷ "g" ∷ "y" ∷ "6" ∷ "" ∷ "" ∷ "" ∷ "m" ∷ "j" ∷ "u"
    ∷ "7" ∷ "8" ∷ "" ∷ "" ∷ "" ∷ "," ∷ "k" ∷ "i" ∷ "o" ∷ "0" ∷ "9" ∷ "" ∷ "." ∷ "/" ∷ "l" ∷ ";"
    ∷ "p" ∷ "-" ∷ "" ∷ "" ∷ "" ∷ "'" ∷ "" ∷ "[" ∷ "=" ∷ "" ∷ "" ∷ "<C-LOCK>" ∷ "<R-SHIFT>" ∷ "\n"
    ∷ "]" ∷ "" ∷ "\\" ∷ []
