-- ===== src/Examples/FilePaths.antt =====
-- Paths of src/file_ops.c on concrete texts.
use epass_usb_responder.Prelude.{◌≢◌, ℕ, ◌≡◌, refl, List, [], ◌∷◌, arith}
use epass_usb_responder.Files.Paths.{
  sd, built, out_of_fuel, slash, path_max_len, skip_slashes, segment, after_segment, is_sd,
  path_component_is_dot, path_component_is_dotdot, add_component, is_too_long, visit, build_loop,
  build_path,
}
use epass_usb_responder.Files.Paths.Split.{split, components}
use epass_usb_responder.Files.Paths.Resolve.{
  Resolves, names, absolute, storage_of, build_path-Resolves,
}
use epass_usb_responder.Files.Paths.Accepts.{
  build_path_accepts, build_path-slash, build_path-ne-out_of_fuel,
}

-- `sd//./a`
abbrev given : List ℕ
given = b's' ∷ b'd' ∷ b'/' ∷ b'/' ∷ b'.' ∷ b'/' ∷ b'a' ∷ []

-- `/sd/a`
abbrev result : List ℕ
result = b'/' ∷ b's' ∷ b'd' ∷ b'/' ∷ b'a' ∷ []

given_built : build_path path_max_len given ≡ built result sd
unfolding build_path build_loop visit skip_slashes segment after_segment is_sd path_component_is_dot
    path_component_is_dotdot add_component is_too_long
given_built = refl

build_path-Resolves_example : Resolves path_max_len result sd (components given)
build_path-Resolves_example =
    build_path-Resolves path_max_len result sd given (omega arith) given_built

build_path_accepts_example :
    build_path path_max_len given
    ≡ built (absolute (names (components given))) (storage_of (names (components given)))
unfolding split path_component_is_dot path_component_is_dotdot
build_path_accepts_example =
    build_path_accepts path_max_len given (refl, (refl, (refl, tt))) (omega arith)

build_path-slash_example : build_path path_max_len (slash ∷ given) ≡ build_path path_max_len given
build_path-slash_example = build_path-slash path_max_len given

build_path-ne-out_of_fuel_example : build_path path_max_len given ≢ out_of_fuel
build_path-ne-out_of_fuel_example = build_path-ne-out_of_fuel path_max_len given
