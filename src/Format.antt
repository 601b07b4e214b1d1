-- ===== src/Format.antt =====
-- Dates as the preferences ask for them (web/src/lib/format.ts). A date that was parsed is given by
-- its UTC fields, `none` one that is not valid; the browser's medium style is an argument.
use pecunia.Prelude.{◌+◌, String, Option, none, some, ◌++◌, str_eq, if◌then◌else◌}
use pecunia.Prelude.Text.{Text, codes, show}
use pecunia.Period.{UtcDate, pad}

abbrev joined : Text → Text → Text → Text → Text
joined separator a b c = a ++ (separator ++ (b ++ (separator ++ c)))

abbrev styled : (UtcDate → Text) → String → UtcDate → Text
styled medium date_format d =
    let year = show d.year in
    let month = pad (d.month + 1) in
    let day = pad d.day in
    if str_eq date_format "DD/MM/YYYY"
    then joined (codes "/") day month year
    else if str_eq date_format "MM/DD/YYYY"
    then joined (codes "/") month day year
    else if str_eq date_format "YYYY-MM-DD"
    then joined (codes "-") year month day
    else if str_eq date_format "DD.MM.YYYY"
    then joined (codes ".") day month year
    else medium d

-- On a date that is not valid the source throws: `none`. Without a format the style is the
-- browser's.
pub format_date : (UtcDate → Text) → Option String → Option UtcDate → Option Text
format_date medium date_format none = none
format_date medium none (some d) = some (medium d)
format_date medium (some date_format) (some d) = some (styled medium date_format d)
