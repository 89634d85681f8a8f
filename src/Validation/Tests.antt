-- ===== src/Validation/Tests.antt =====
-- Strings at the edges of the checks of crates/relayterm-core/src/validation.rs.
use relay_term.Prelude.{◌≤◌, ◌≡◌, ◌↔◌, refl, List, [], ◌∷◌, length, All}
use relay_term.Prelude.Calls.{ok, err}
use relay_term.Auth.{Text}
use relay_term.Auth.Text.{same_text, trim_start, trim_end, is_whitespace}
use relay_term.Validation.{
  surrounding, out_of_range, ssh_port, profile_name, is_tag_char, max_tags, is_empty, validate_name,
  validate_profile_name, validate_hostname, validate_ssh_port, validate_tags,
}
use relay_term.Validation.Accepts.{Spelled, HostnameChar, validate_hostname_iff}
use relay_term.Validation.Tags.{Fresh, validate_tags_iff}

-- `a-1`.
abbrev a_name : Text
a_name = 97 ∷ 45 ∷ 49 ∷ []

abbrev b_name : Text
b_name = 98 ∷ []

abbrev two_tags : List Text
two_tags = a_name ∷ b_name ∷ []

validate_hostname_iff_example :
    (validate_hostname a_name ≡ ok a_name)
    ↔ ((a_name ≡ a_name) × (1 ≤ length a_name) × (length a_name ≤ 253) × All HostnameChar a_name)
validate_hostname_iff_example = validate_hostname_iff a_name a_name

validate_tags_iff_example : (validate_tags two_tags ≡ ok two_tags) ↔ (
    (two_tags ≡ two_tags)
    × (length two_tags ≤ max_tags)
    × All (Spelled is_tag_char 32) two_tags
    × Fresh [] two_tags)
validate_tags_iff_example = validate_tags_iff two_tags two_tags

port_zero : validate_ssh_port 0 ≡ err (out_of_range ssh_port 1 65535 0)
unfolding validate_ssh_port
port_zero = refl

-- A space at the end.
padded_name : validate_profile_name (97 ∷ 32 ∷ []) ≡ err (surrounding profile_name)
unfolding validate_profile_name validate_name same_text trim_start trim_end is_whitespace is_empty
padded_name = refl
