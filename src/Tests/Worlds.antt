-- ===== src/Tests/Worlds.antt =====
-- Worlds in which a container of a kept run is found.
use netcage.Base.{some, List, [], ◌∷◌, ◌++◌, if◌then◌else◌}
use netcage.Text.{Text, codes, eqb}
use netcage.Jail.Effects.{Event, podman, World, done}
use netcage.Jail.Resolve.{label_format}

unfoldable pub answer : Text → Text → Event → Text
answer labels other (podman (verb ∷ flag ∷ format ∷ rest)) =
    if eqb format label_format then labels else other
answer labels other _ = other

-- Each command succeeds: the inspection of labels shows the first text, all else the second.
abbrev pub kept_world : Text → Text → List Text → World
kept_world labels other decoded = record {
  reply = λ _ e. record { out = answer labels other e; stderr = []; status = done };
  temp_path = λ name. codes "/tmp/" ++ name;
  random_bytes = λ _. some (1 ∷ 255 ∷ []);
  decode_texts = λ _. some decoded;
}

abbrev pub tool_labels : Text
tool_labels = codes "true\ttool\tab12\n"
