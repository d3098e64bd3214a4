-- ===== src/FormatPrint/Tests.antt =====
-- Output into a buffer of four bytes, and a negative number with a sign and zeros.
use x.Prelude.{◌-◌, ◌^◌, ◌≡◌, refl, true, false, [], ◌∷◌, none, some, arith}
use x.FormatPrint.{Conversion, output_init, produce_all, finalize, produce_int, convert}
use x.FormatPrint.Buffer.{print_lem}

abbrev signed : Conversion
signed = record {
  alt_form = false;
  zero_pad = true;
  left_justify = false;
  blank = false;
  sign = false;
  lower = false;
  conv_signed = true;
  width = 5;
  precision = none;
  base = 10;
}

-- printf ("%05d", -42)
produce_int-signed : produce_int signed (2 ^ 64 - 42) ≡ b'-' ∷ b'0' ∷ b'0' ∷ b'4' ∷ b'2' ∷ []
unfolding produce_int convert
produce_int-signed = refl

print_lem_example :
    finalize (produce_all (output_init (1 ∷ 1 ∷ 1 ∷ 1 ∷ 1 ∷ []) 4) (b'a' ∷ b'b' ∷ b'c' ∷ b'd' ∷ []))
    ≡ record { buffer = b'a' ∷ b'b' ∷ b'c' ∷ 0 ∷ 1 ∷ []; produced = 4; end = some 3 }
print_lem_example =
    print_lem (1 ∷ 1 ∷ 1 ∷ 1 ∷ 1 ∷ []) (b'a' ∷ b'b' ∷ b'c' ∷ b'd' ∷ []) 3 (omega arith)
