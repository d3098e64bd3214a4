-- ===== src/FormatScan/Tests.antt =====
-- Numbers read from strings.
use x.Prelude.{◌≡◌, refl, inr, true, false, [], ◌∷◌, ◌++◌, some, arith}
use x.FormatPrint.{produce_int}
use x.FormatPrint.Plain.{plain}
use x.FormatScan.{scanned, refused, scan_int, collect, add_digits}
use x.FormatScan.Auto.{auto_base_last_digit}
use x.FormatScan.RoundTrip.{source, print_scan_round_trip}

-- A zero alone is refused in base 0, and in base 8 too.
scan_int-nought : scan_int false 0 (source (b'0' ∷ 0 ∷ [])) ≡ some (refused (0 ∷ []))
unfolding scan_int collect add_digits
scan_int-nought = refl

print_scan_round_trip_example :
    scan_int false 16 (source (produce_int (plain 16 true 6) 48879 ++ (0 ∷ 7 ∷ [])))
    ≡ some (scanned 48879 (0 ∷ 7 ∷ []))
print_scan_round_trip_example =
    print_scan_round_trip 16 48879 6 true (7 ∷ []) (inr refl) (omega arith)

auto_base_last_digit_example :
    scan_int false 0 (source (b'1' ∷ b'2' ∷ 0 ∷ [])) ≡ some (scanned 2 (0 ∷ []))
auto_base_last_digit_example =
    auto_base_last_digit b'1' b'2' 2 (b'2' ∷ []) (b'1' ∷ []) [] ((1, refl), ((2, refl), tt)) refl
      (omega arith) refl refl (omega arith)
