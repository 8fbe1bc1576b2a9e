-- ===== src/Tests/Tasks.antt =====
-- The order of the sample tasks, and slugs.
use hypr_taskspace.Prelude.{true, false, some, ◌≡◌, ◌≢◌, refl, All, head?}
use hypr_taskspace.Prelude.Text.{codes, is_empty, to_ascii_lowercase}
use hypr_taskspace.Models.{Task}
use hypr_taskspace.Models.Slug.{slugify, is_slug_char, last?, slugify-form}
use hypr_taskspace.Tests.Sample.{billing}

abbrev newer : Task
newer = record billing { listed_at = 7 }

slug : slugify to_ascii_lowercase (codes "Fix: login!") ≡ codes "fix--login"
unfolding slugify
slug = refl

slugify-form_example :
    (is_empty (slugify to_ascii_lowercase (codes "Fix: login!")) ≡ false)
    × All (λ c. is_slug_char c ≡ true) (slugify to_ascii_lowercase (codes "Fix: login!"))
    × (head? (slugify to_ascii_lowercase (codes "Fix: login!")) ≢ some b'-')
    × (last? (slugify to_ascii_lowercase (codes "Fix: login!")) ≢ some b'-')
slugify-form_example = slugify-form to_ascii_lowercase (codes "Fix: login!")
