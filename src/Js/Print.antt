-- ===== src/Js/Print.antt =====
-- `String(value)` of a JavaScript value. An integer prints as its digits; JavaScript writes one of
-- more than 21 digits with an exponent.
use autoform_panel.Js.Text.{numeral}
use autoform_panel.Js.Value.{
  no_element, element, non_finite, Elements, frac, arr, obj, negsuc, str, pos, num, null, undefined,
  int, bool, Value, Num,
}
use autoform_panel.Prelude.{suc, String, Bool, true, false, if◌then◌else◌}
use Prim.Native.String

abbrev num_text : Num → String
num_text (int (pos n)) = numeral n
num_text (int (negsuc n)) = String.◌++◌ "-" (numeral (suc n))
num_text (frac s) = s
num_text non_finite = "Infinity"

abbrev pub nullish : Value → Bool
nullish undefined = true
nullish null = true
nullish _ = false

unfoldable mutual
  pub to_text : Value → String
  to_text undefined = "undefined"
  to_text null = "null"
  to_text (bool true) = "true"
  to_text (bool false) = "false"
  to_text (num n) = num_text n
  to_text (str s) = s
  to_text (obj fs) = "[object Object]"
  to_text (arr vs) = commas vs

  -- The elements of an array, separated by commas.
  commas : Elements → String
  commas no_element = ""
  commas (element v no_element) = if nullish v then "" else to_text v
  commas (element v (element w vs)) =
      String.◌++◌ (if nullish v then "" else to_text v) (String.◌++◌ "," (commas (element w vs)))

-- `String(value ?? "")`
abbrev pub text_or : Value → String
text_or v = if nullish v then "" else to_text v
