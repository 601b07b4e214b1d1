-- ===== src/Shell/Avatar/Encoding.antt =====
-- Which of the encodings is taken.
use pecunia.Prelude.{
  if◌then◌else◌, true, false, ◌≡◌, refl, inl, inr, Option, none, some, List, [], ◌∷◌, ◌++◌, All,
  Bool-cases, Bool,
}
use pecunia.Prelude.Text.{Text}
use pecunia.Shell.Avatar.{
  Attempt, Avatar, data_uri, image_too_large, decode_failed, canvas_unavailable, accepts, encode,
  Browser, Image, canvas_size, draw, encode_attempts, file_to_avatar_data_uri,
}

-- How the attempts end: with the first encoding that is accepted, or with none accepted.
pub data Encodes (to_data_url : Attempt → Text) : List Attempt → Avatar → Type 0 where
  exhausted :
      (attempts : List Attempt)
      → All (λ a. accepts a (to_data_url a) ≡ false) attempts
      → Encodes to_data_url attempts image_too_large
  taken :
      (before : List Attempt) (a : Attempt) (later : List Attempt)
      → All (λ b. accepts b (to_data_url b) ≡ false) before
      → accepts a (to_data_url a) ≡ true
      → Encodes to_data_url (before ++ (a ∷ later)) (data_uri (to_data_url a))

skip :
    (to_data_url : Attempt → Text) (a : Attempt) (attempts : List Attempt) (r : Avatar)
    → accepts a (to_data_url a) ≡ false
    → Encodes to_data_url attempts r
    → Encodes to_data_url (a ∷ attempts) r
skip to_data_url a attempts r h (exhausted others k) = exhausted (a ∷ others) (h, k)
skip to_data_url a attempts r h (taken before b later k t) = taken (a ∷ before) b later (h, k) t

encode-Encodes :
    (to_data_url : Attempt → Text) (attempts : List Attempt)
    → Encodes to_data_url attempts (encode to_data_url attempts)
unfolding encode
encode-Encodes to_data_url [] = exhausted [] tt
encode-Encodes to_data_url (a ∷ attempts) = elim (Bool-cases (accepts a (to_data_url a))) [
  | inl e ↦ rw e (taken [] a attempts tt e)
  | inr e ↦ rw e (
      skip to_data_url a attempts (encode to_data_url attempts) e
        (encode-Encodes to_data_url attempts))
]

-- How a file ends up: not decoded, without a canvas, or as the attempts end at the canvas's size.
pub data Transforms (browser : Browser) : Avatar → Type 0 where
  not_decoded : browser.load_image ≡ none → Transforms browser decode_failed
  no_canvas : browser.has_context ≡ false → Transforms browser canvas_unavailable
  encoded :
      (image : Image) (avatar : Avatar)
      → browser.load_image ≡ some image
      → browser.has_context ≡ true
      → Encodes (browser.to_data_url (canvas_size image)) encode_attempts avatar
      → Transforms browser avatar

-- A file that is decoded and drawn becomes the first of the six encodings, in their order, that
-- has the type asked for and at most 65536 characters, and is too large just when none of them
-- does; otherwise the file was not decoded, or there was no canvas.
pub file_to_avatar_data_uri-Transforms :
    (browser : Browser) → Transforms browser (file_to_avatar_data_uri browser)
unfolding file_to_avatar_data_uri draw
file_to_avatar_data_uri-Transforms browser = go browser.load_image refl
  where
    drawn :
        (image : Image) (b : Bool)
        → browser.load_image ≡ some image
        → browser.has_context ≡ b
        → Transforms browser (
            if b
            then encode (browser.to_data_url (canvas_size image)) encode_attempts
            else canvas_unavailable)
    drawn image true e h =
        encoded image (encode (browser.to_data_url (canvas_size image)) encode_attempts) e h
          (encode-Encodes (browser.to_data_url (canvas_size image)) encode_attempts)
    drawn image false e h = no_canvas h

    go :
        (o : Option Image)
        → browser.load_image ≡ o
        → Transforms browser (elim o [ none ↦ decode_failed | some image ↦ draw browser image ])
    go none e = not_decoded e
    go (some image) e = drawn image browser.has_context e refl
