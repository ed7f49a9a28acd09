-- ===== src/Utilities/Tests.antt =====
-- Runs of the model of utilities.c, and the theorems at concrete inputs.
use openamp_core.Prelude.{◌≡◌, refl, none, ltb, if◌then◌else◌, arith}
use openamp_core.Utilities.{Chars, safe_strcpy}
use openamp_core.Utilities.Copy.{EndsAt}
use openamp_core.Utilities.Strcpy.{safe_strcpy-overruns}

-- Three letters and the terminator.
abbrev abc : Chars
abc i = if ltb i 3 then 97 else 0

abbrev letters : Chars
letters i = 97

abbrev garbage : Chars
garbage i = 255

abc-EndsAt : EndsAt abc 3
abc-EndsAt = record { ends = refl; goes_on = λ j l. ground arith }

safe_strcpy-overruns_example : safe_strcpy garbage 8 abc 5 ≡ none
safe_strcpy-overruns_example =
    safe_strcpy-overruns garbage abc 8 5 (omega arith) 3 (omega arith) abc-EndsAt (omega arith)
