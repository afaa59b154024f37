-- ===== src/Hosts/Name.antt =====
-- src/hosts/models.py: `Host.build_name`.
use Prim.Native.Char.{Char}
use Prim.Native.String as Text
use drukbox.Base.{ℕ, zero, suc, ◌/◌, ◌%◌, ◌≡◌, refl, String}

hex_char : ℕ → Char
hex_char zero = "0"
hex_char (suc zero) = "1"
hex_char (suc (suc zero)) = "2"
hex_char (suc (suc (suc zero))) = "3"
hex_char (suc (suc (suc (suc zero)))) = "4"
hex_char (suc (suc (suc (suc (suc zero))))) = "5"
hex_char (suc (suc (suc (suc (suc (suc zero)))))) = "6"
hex_char (suc (suc (suc (suc (suc (suc (suc zero))))))) = "7"
hex_char (suc (suc (suc (suc (suc (suc (suc (suc zero)))))))) = "8"
hex_char (suc (suc (suc (suc (suc (suc (suc (suc (suc zero))))))))) = "9"
hex_char (suc (suc (suc (suc (suc (suc (suc (suc (suc (suc zero)))))))))) = "a"
hex_char (suc (suc (suc (suc (suc (suc (suc (suc (suc (suc (suc zero))))))))))) = "b"
hex_char (suc (suc (suc (suc (suc (suc (suc (suc (suc (suc (suc (suc zero)))))))))))) = "c"
hex_char (suc (suc (suc (suc (suc (suc (suc (suc (suc (suc (suc (suc (suc zero))))))))))))) = "d"
hex_char (suc (suc (suc (suc (suc (suc (suc (suc (suc (suc (suc (suc (suc (suc zero)))))))))))))) =
    "e"
hex_char _ = "f"

-- The last `count` hexadecimal digits of a number, before a text.
hex_onto : ℕ → ℕ → String → String
unfolding hex_char
hex_onto zero n rest = rest
hex_onto (suc count) n rest = hex_onto count (n / 16) (Text.◌∷◌ (hex_char (n % 16)) rest)

-- The prefix and the last twelve of the id's 32 digits.
unfoldable pub build_name : ℕ → String
unfolding hex_onto
build_name i = Text.◌++◌ "sb-" (hex_onto 12 i "")

short_name : build_name 0xabc0123456789 ≡ "sb-bc0123456789"
unfolding build_name
short_name = refl
