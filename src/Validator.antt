-- ===== src/Validator.antt =====
-- g502x_onboard/validator.py, `ValidationReport`, `binding_kind` and `validate_images`: what is wrong
-- with the sixteen sectors of a device.
pub mod Report
pub mod Starts
pub mod Sound
pub mod Accepts
pub mod Total
use g502x_onboard.Base.{
  ℕ, String, zero, suc, ◌+◌, ◌*◌, Bool, true, false, not, ◌&&◌, ◌||◌, Option, none, some, List, [],
  ◌∷◌, ◌++◌, ◌==◌, if◌then◌else◌, ltb, leb, elem, get_or, get_elem?, length, bytes_eq, replicate,
}
use g502x_onboard.Base.Results.{Result, ok, err, require, ◌>>=◌}
use g502x_onboard.Constants.{
  sector_size, recovery_sectors, programmable_profiles, addressable_macro_sectors,
}
use g502x_onboard.CodecError.{CodecError, index_error, struct_error}
use g502x_onboard.Keys.{keys, consumer_usages, direct_mouse_masks}
use g502x_onboard.Sector.{
  Health, invalid, raw_no_crc, sector_crc_ok, macro_page_health, macro_payload_limit,
}
use g502x_onboard.Directory.{validate_directory, is_empty}
use g502x_onboard.Vm.{Pages, Address, VmInstruction, walk_macro}
use g502x_onboard.Profile.{Layer, Button, layers, target_order, binding_at}

-- `f"P{profile}:{layer}:{target}"`
pub record BindingRoute : Type 0 where
  pub profile : ℕ
  pub layer : Layer
  pub button : Button

-- The messages in `errors`.
pub data Invalid : Type 0 where
  missing_sectors : List ℕ → Invalid
  wrong_size : (sector size : ℕ) → Invalid
  recovery_changed profile_crc page_size : ℕ → Invalid
  directory_invalid : CodecError → Invalid
  unknown_rate : (profile code : ℕ) → Invalid
  default_dpi_index shift_dpi_index : (profile index : ℕ) → Invalid
  unknown_binding : BindingRoute → List ℕ → Invalid
  mouse_mask keyboard_usage consumer_usage : BindingRoute → ℕ → Invalid
  pointer_sector pointer_offset : BindingRoute → ℕ → Invalid
  pointer_empty : BindingRoute → Address → Invalid
  chain_invalid : List BindingRoute → Address → CodecError → Invalid

abbrev pub Starts : Type 0
Starts = List (Address × List BindingRoute)

-- A warning names the sector of a populated raw page.
pub record ValidationReport : Type 0 where
  pub errors : List Invalid
  pub warnings : List ℕ
  pub enabled_profiles : List ℕ
  pub macro_starts : Starts
  pub macro_chains : List (Address × List VmInstruction)

abbrev pub no_errors : List Invalid → Bool
no_errors [] = true
no_errors (e ∷ es) = false

-- `ValidationReport.ok`
abbrev pub is_ok : ValidationReport → Bool
is_ok report = no_errors report.errors

pub data BindingKind : Type 0 where
  unused direct special macro unknown : BindingKind

unfoldable pub binding_kind : List ℕ → BindingKind
binding_kind binding =
    if bytes_eq binding (0xFF ∷ 0xFF ∷ 0xFF ∷ 0xFF ∷ [])
    then unused
    else if get_or binding 0 0 == 0x80 && elem (get_or binding 1 0) (1 ∷ 2 ∷ 3 ∷ [])
    then direct
    else if get_or binding 0 0 == 0x90
    then special
    else if get_or binding 0 0 == 0
    then macro
    else unknown

-- `value in set(table.values())`
unfoldable pub has_value : ℕ → List (String × ℕ) → Bool
has_value value [] = false
has_value value ((name, v) ∷ table) = value == v || has_value value table

-- `(binding[2] << 8) | binding[3]`
abbrev pub word : List ℕ → ℕ
word binding = get_or binding 2 0 * 256 + get_or binding 3 0

-- What a route adds to the report.
pub data Finding : Type 0 where
  fine : Finding
  problem : Invalid → Finding
  starts_at : BindingRoute → Address → Finding

abbrev pub problem_unless : Bool → Invalid → Finding
problem_unless true e = fine
problem_unless false e = problem e

unfoldable pub check_direct : BindingRoute → List ℕ → Finding
check_direct route binding =
    if get_or binding 1 0 == 1
    then problem_unless (has_value (word binding) direct_mouse_masks)
        (mouse_mask route (word binding))
    else if get_or binding 1 0 == 2
    then problem_unless (has_value (get_or binding 3 0) keys)
        (keyboard_usage route (get_or binding 3 0))
    else problem_unless (has_value (word binding) consumer_usages)
        (consumer_usage route (word binding))

-- `images[sector]`, once all sectors are there.
abbrev pub Complete : Type 0
Complete = ℕ → List ℕ

-- `pages`
abbrev pub macro_pages : Complete → Pages
macro_pages images sector =
    if elem sector addressable_macro_sectors then some (images sector) else none

-- Of a pointer into a sector with this limit.
unfoldable pub pointer_finding : Complete → BindingRoute → Address → ℕ → Result CodecError Finding
pointer_finding images route start limit =
    if not (ltb start.1 limit)
    then ok (problem (pointer_offset route start.1))
    else elim (get_elem? (images start.0) start.1) [
      | none ↦ err index_error
      | some byte ↦
          ok (if byte == 0xFF then problem (pointer_empty route start) else starts_at route start)
    ]

unfoldable pub check_pointer : Complete → BindingRoute → List ℕ → Result CodecError Finding
check_pointer images route binding =
    let sector = get_or binding 1 0 in
    if not (elem sector addressable_macro_sectors)
    then ok (problem (pointer_sector route sector))
    else macro_payload_limit (images sector) >>= λ limit.
        pointer_finding images route (sector, word binding) limit

abbrev pub check_kind : Complete → BindingRoute → List ℕ → BindingKind → Result CodecError Finding
check_kind images route binding unknown = ok (problem (unknown_binding route binding))
check_kind images route binding direct =
    require (leb 4 (length binding)) index_error >>= λ u. ok (check_direct route binding)
check_kind images route binding macro =
    require (leb 4 (length binding)) index_error >>= λ u. check_pointer images route binding
check_kind images route binding _ = ok fine

-- `binding_kind` reads a first byte, and a second one after 0x80.
abbrev pub has_kind : List ℕ → Bool
has_kind binding =
    bytes_eq binding (0xFF ∷ 0xFF ∷ 0xFF ∷ 0xFF ∷ [])
    || (ltb 0 (length binding) && (not (get_or binding 0 0 == 0x80) || ltb 1 (length binding)))

unfoldable pub check_binding : Complete → BindingRoute → List ℕ → Result CodecError Finding
check_binding images route binding = require (has_kind binding) index_error >>= λ u.
    check_kind images route binding (binding_kind binding)

-- The loop over the buttons of a layer.
unfoldable pub check_buttons : Complete → ℕ → Layer → List Button → Result CodecError (List Finding)
check_buttons images profile layer [] = ok []
check_buttons images profile layer (button ∷ buttons) =
    let route : BindingRoute = record { profile = profile; layer = layer; button = button } in
    check_binding images route (binding_at (images profile) layer button) >>= λ finding.
    check_buttons images profile layer buttons >>= λ findings. ok (finding ∷ findings)

unfoldable pub check_layers : Complete → ℕ → List Layer → Result CodecError (List Finding)
check_layers images profile [] = ok []
check_layers images profile (layer ∷ rest) =
    check_buttons images profile layer target_order >>= λ findings.
    check_layers images profile rest >>= λ more. ok (findings ++ more)

-- The report rate and the two slots.
unfoldable pub check_metadata : ℕ → List ℕ → List Finding
check_metadata profile bytes =
    problem_unless (elem (get_or bytes 0 0) (1 ∷ 2 ∷ 4 ∷ 8 ∷ []))
      (unknown_rate profile (get_or bytes 0 0))
    ∷ problem_unless (leb (get_or bytes 1 0) 4) (default_dpi_index profile (get_or bytes 1 0))
    ∷ problem_unless (leb (get_or bytes 2 0) 4) (shift_dpi_index profile (get_or bytes 2 0))
    ∷ []

-- `profile_metadata` reads three bytes and unpacks five words after them.
unfoldable pub read_metadata : List ℕ → Result CodecError (Unit {0})
read_metadata bytes =
    require (leb 3 (length bytes)) index_error >>= λ u. require (leb 13 (length bytes)) struct_error

unfoldable pub check_profiles : Complete → List ℕ → List ℕ → Result CodecError (List Finding)
check_profiles images enabled [] = ok []
check_profiles images enabled (profile ∷ profiles) = read_metadata (images profile) >>= λ u.
    (if elem profile enabled then check_layers images profile layers else ok []) >>= λ findings.
    check_profiles images enabled profiles >>= λ more. ok (
      if elem profile enabled
      then check_metadata profile (images profile) ++ (findings ++ more)
      else more)

unfoldable pub problems : List Finding → List Invalid
problems [] = []
problems (fine ∷ findings) = problems findings
problems (problem e ∷ findings) = e ∷ problems findings
problems (starts_at route start ∷ findings) = problems findings

abbrev pub equal_address : Address → Address → Bool
equal_address a b = a.0 == b.0 && a.1 == b.1

-- `macro_starts.setdefault(start, []).append(route)`
unfoldable pub add_start : BindingRoute → Address → Starts → Starts
add_start route start [] = (start, route ∷ []) ∷ []
add_start route start ((other, routes) ∷ starts) =
    let rest = add_start route start starts in
    if equal_address start other
    then (other, routes ++ (route ∷ [])) ∷ starts
    else (other, routes) ∷ rest

unfoldable pub collect_starts : List Finding → Starts → Starts
collect_starts [] starts = starts
collect_starts (starts_at route start ∷ findings) starts =
    collect_starts findings (add_start route start starts)
collect_starts (_ ∷ findings) starts = collect_starts findings starts

-- `sorted(macro_starts.items())`; no two starts are equal.
abbrev pub before : Address → Address → Bool
before a b = ltb a.0 b.0 || (a.0 == b.0 && ltb a.1 b.1)

unfoldable pub insert_start : Address × List BindingRoute → Starts → Starts
insert_start entry [] = entry ∷ []
insert_start entry (other ∷ starts) =
    let rest = insert_start entry starts in
    if before entry.0 other.0 then entry ∷ other ∷ starts else other ∷ rest

unfoldable pub sort_starts : Starts → Starts
sort_starts [] = []
sort_starts (entry ∷ starts) = insert_start entry (sort_starts starts)

abbrev pub Walked : Type 0
Walked = List Invalid × List (Address × List VmInstruction)

-- One round of the last loop.
abbrev pub add_walked :
    Address → List BindingRoute → Result CodecError (List VmInstruction) → Walked → Walked
add_walked start routes (ok chain) (errors, chains) = (errors, (start, chain) ∷ chains)
add_walked start routes (err e) (errors, chains) = (chain_invalid routes start e ∷ errors, chains)

unfoldable pub walk_starts : Pages → Starts → Walked
walk_starts pages [] = ([], [])
walk_starts pages ((start, routes) ∷ starts) =
    add_walked start routes (walk_macro pages start) (walk_starts pages starts)
