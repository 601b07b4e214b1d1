-- ===== src/Shell/Avatar.antt =====
-- The avatar pipeline (web/src/components/ui/imageTransform.ts). The browser's decoding and
-- encoding are a parameter. The scale is an exact fraction: a double's rounding is not modelled.
-- Lengths are numbers of ASCII characters.
pub mod Scaling
pub mod Encoding
mod Tests
use pecunia.Prelude.{
  ℕ, ◌+◌, ◌*◌, ◌/◌, max, Bool, true, false, ◌&&◌, ◌||◌, Option, none, some, List, [], ◌∷◌, ◌++◌,
  length, leb, ◌==◌, if◌then◌else◌,
}
use pecunia.Prelude.Text.{Text, codes}

abbrev pub max_avatar_bytes : ℕ
max_avatar_bytes = 64 * 1024

abbrev pub max_dimension : ℕ
max_dimension = 128

pub record Size : Type 0 where
  pub width : ℕ
  pub height : ℕ

-- `Math.round(n * Math.min(1, bound / longest))`
pub scaled : ℕ → ℕ → ℕ → ℕ
scaled n bound longest =
    if leb longest bound then n else (2 * (n * bound) + longest) / (2 * longest)

pub fit_within : ℕ → ℕ → ℕ → Size
unfolding scaled
fit_within width height bound =
    if width == 0 || height == 0 then record { width = 0; height = 0 } else record {
      width = scaled width bound (max width height);
      height = scaled height bound (max width height);
    }

pub record Attempt : Type 0 where
  pub mime : Text
  -- In hundredths.
  pub quality : ℕ

abbrev attempt : Text → ℕ → Attempt
attempt mime quality = record { mime = mime; quality = quality }

abbrev pub encode_attempts : List Attempt
encode_attempts =
    attempt (codes "image/webp") 82
    ∷ attempt (codes "image/webp") 60
    ∷ attempt (codes "image/webp") 40
    ∷ attempt (codes "image/jpeg") 80
    ∷ attempt (codes "image/jpeg") 55
    ∷ attempt (codes "image/jpeg") 35
    ∷ []

-- `s.startsWith(prefix)`
abbrev pub starts_with : Text → Text → Bool
starts_with [] s = true
starts_with (c ∷ prefix) [] = false
starts_with (c ∷ prefix) (d ∷ s) = c == d && starts_with prefix s

abbrev pub accepts : Attempt → Text → Bool
accepts a uri = starts_with (codes "data:" ++ a.mime) uri && leb (length uri) max_avatar_bytes

-- A decoded image: its natural size, and the size of its element.
pub record Image : Type 0 where
  pub natural : Size
  pub element : Size

-- What the browser does with the file: `none` if it cannot be decoded, whether there is a 2d
-- context, and `toDataURL` of the image drawn at a size.
pub record Browser : Type 0 where
  pub load_image : Option Image
  pub has_context : Bool
  pub to_data_url : Size → Attempt → Text

pub data Avatar : Type 0 where
  data_uri : Text → Avatar
  decode_failed : Avatar
  canvas_unavailable : Avatar
  image_too_large : Avatar

-- The loop over the attempts.
pub encode : (Attempt → Text) → List Attempt → Avatar
encode to_data_url [] = image_too_large
encode to_data_url (a ∷ attempts) =
    let rest = encode to_data_url attempts in
    if accepts a (to_data_url a) then data_uri (to_data_url a) else rest

-- `a || b` of two numbers
abbrev or_else_size : ℕ → ℕ → ℕ
or_else_size a b = if a == 0 then b else a

pub canvas_size : Image → Size
unfolding fit_within
canvas_size image =
    let source =
      fit_within (or_else_size image.natural.width image.element.width)
        (or_else_size image.natural.height image.element.height) max_dimension in
    record { width = max 1 source.width; height = max 1 source.height }

draw : Browser → Image → Avatar
unfolding encode canvas_size
draw browser image =
    if browser.has_context
    then encode (browser.to_data_url (canvas_size image)) encode_attempts
    else canvas_unavailable

pub file_to_avatar_data_uri : Browser → Avatar
unfolding draw
file_to_avatar_data_uri browser = elim browser.load_image [
  | none ↦ decode_failed
  | some image ↦ draw browser image
]
