-- ===== src/Version/Text.antt =====
-- include/plg/version.hpp: `to_chars` and `version::to_string`. The source fills a buffer of the right
-- length from its end; here each part is put in front of the text behind it.
use plugify.Prelude.{ℕ, zero, suc, ◌+◌, ◌/◌, ◌%◌, List, [], ◌∷◌, ◌++◌, ltb, if◌then◌else◌}
use plugify.Version.Types.{Version}

-- The digits of n in front of `behind`. The fuel n + 1 is enough, since n / 10 < n.
unfoldable pub to_chars_loop : ℕ → ℕ → List ℕ → List ℕ
to_chars_loop zero n behind = behind
to_chars_loop (suc fuel) n behind =
    let more = to_chars_loop fuel (n / 10) ((b'0' + n % 10) ∷ behind) in
    if ltb n 10 then (b'0' + n % 10) ∷ behind else more

unfoldable pub to_chars : ℕ → List ℕ → List ℕ
unfolding to_chars_loop
to_chars n behind = to_chars_loop (suc n) n behind

-- A part that is written only if it is not empty, behind the character that introduces it.
unfoldable pub optional_part : ℕ → List ℕ → List ℕ → List ℕ
optional_part mark [] behind = behind
optional_part mark (c ∷ cs) behind = mark ∷ ((c ∷ cs) ++ behind)

unfoldable pub to_string : Version → List ℕ
unfolding to_chars optional_part
to_string v = to_chars v.major (
    b'.'
    ∷ to_chars v.minor (
        b'.'
        ∷ to_chars v.patch
            (optional_part b'-' v.prerelease_tag (optional_part b'+' v.build_metadata []))))
