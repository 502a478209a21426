-- ===== src/Encoder/Scenarios.antt =====
-- Concrete runs of crates/encoder/src/lib.rs, and the theorems applied to them.
use moreland_kde.Base.{ℕ, ◌≡◌, refl, true, false, not, ◌||◌, none, some, List, [], ◌∷◌, ◌==◌}
use moreland_kde.Base.Result.{err}
use moreland_kde.Base.Text.{Text, text, text_eq, is_whitespace}
use moreland_kde.Encoder.Modifiers.{
  Registry, string_value, list_value, value_and, no_values, has, supported_modifiers,
  parse_drm_format, fourcc_name,
}
use moreland_kde.Encoder.Modifiers.Distinct.{NoRepeat}
use moreland_kde.Encoder.Modifiers.Offered.{names, offered, supported_modifiers_lem}
use moreland_kde.Encoder.Pipeline.{Plugins, default_config, new, not_created, drm_format}
use moreland_kde.Encoder.Pipeline.Building.{new-pipeline_for}

abbrev no_text : List ℕ → Text
no_text bytes = []

abbrev registry : Registry
registry = record {
  initialises = true;
  nvidia_version_file = false;
  nvh264enc = true;
  vapostproc = some (
      record {
        is_sink = true;
        drm_formats =
            some (
              list_value (
                value_and (string_value (text "XR24:0x0200000000000901"))
                  (value_and (string_value (text "AR24:0x1")) no_values)))
            ∷ none
            ∷ some (string_value (text "XR24"))
            ∷ [];
      }
      ∷ []);
}

abbrev xr24 : ℕ
xr24 = 0x34325258

abbrev tiled : ℕ
tiled = 0x0200000000000901

supported_modifiers_lem_example :
    (has tiled (supported_modifiers no_text registry xr24)
      ≡ names (fourcc_name no_text xr24) tiled (offered registry) || 0 == tiled)
    × NoRepeat (supported_modifiers no_text registry xr24)
supported_modifiers_lem_example = supported_modifiers_lem no_text registry xr24 tiled

both_supported : supported_modifiers no_text registry xr24 ≡ tiled ∷ 0 ∷ []
unfolding supported_modifiers parse_drm_format is_whitespace fourcc_name
both_supported = refl

-- The format that the encoder asks for reads back as its modifier.
format_reads_back : parse_drm_format (drm_format no_text default_config) (text "XR24") ≡ some tiled
unfolding parse_drm_format drm_format fourcc_name is_whitespace
format_reads_back = refl

abbrev without_va : Plugins
without_va = record {
  makes = λ e. not (text_eq e (text "vah264enc") || text_eq e (text "appsink"));
  adds = true;
  links = true;
  starts = true;
}

-- The sink is missing as well, but the first that is missing is named.
vah264enc_missing : new registry without_va default_config ≡ err (not_created (text "vah264enc"))
vah264enc_missing = new-pipeline_for registry without_va default_config refl
