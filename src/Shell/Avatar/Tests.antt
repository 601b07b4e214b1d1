-- ===== src/Shell/Avatar/Tests.antt =====
-- A wide photograph.
use pecunia.Prelude.{ℕ, true, some, arith}
use pecunia.Shell.Avatar.{Size, fit_within, Browser, file_to_avatar_data_uri}
use pecunia.Prelude.Text.{codes}
use pecunia.Shell.Avatar.Scaling.{Fits, fit_within-Fits}
use pecunia.Shell.Avatar.Encoding.{Transforms, file_to_avatar_data_uri-Transforms}

abbrev size : ℕ → ℕ → Size
size width height = record { width = width; height = height }

fits_example : Fits 640 5 128 (fit_within 640 5 128)
fits_example = fit_within-Fits 640 5 128 (omega arith) (omega arith)

-- A browser that encodes webp only.
abbrev browser : Browser
browser = record {
  load_image = some (record { natural = size 640 5; element = size 0 0 });
  has_context = true;
  to_data_url = λ s a. codes "data:image/webp;base64,AA";
}

avatar_example : Transforms browser (file_to_avatar_data_uri browser)
avatar_example = file_to_avatar_data_uri-Transforms browser
