-- ===== src/Examples/Simulator.antt =====
-- A device in memory, for the tests of g502x_onboard/device.py: it answers as the code expects.
use g502x_onboard.Base.{
  ℕ, true, none, some, List, [], ◌∷◌, ◌++◌, ◌==◌, if◌then◌else◌, take, drop, get_or, set, replicate,
}
use g502x_onboard.Base.Results.{ok}
use g502x_onboard.Sector.{unpack_be16}
use g502x_onboard.Identity.{Manifest, tested_name}
use g502x_onboard.Device.{Env, Images}

pub record World : Type 0 where
  pub pages : List (List ℕ)
  pub open_page : ℕ
  pub buffer : List ℕ
  pub profile : ℕ

-- A page of 255 bytes.
abbrev pub fit : List ℕ → List ℕ
fit bytes = take 255 (bytes ++ replicate 255 0xFF)

abbrev pub memory : World → Images
memory w sector = fit (get_or w.pages sector [])

abbrev pub descriptor_reply : List ℕ
descriptor_reply = 0 ∷ 0 ∷ 0 ∷ 0 ∷ 1 ∷ 3 ∷ 1 ∷ 5 ∷ 2 ∷ 11 ∷ 16 ∷ 0 ∷ 255 ∷ 10 ∷ []

abbrev pub page_reply : List ℕ → World → List ℕ
page_reply arguments w =
    0
    ∷ 0
    ∷ 0
    ∷ 0
    ∷ take 16 (drop (unpack_be16 (drop 2 arguments)) (memory w (unpack_be16 arguments)))

abbrev pub answer : ℕ → List ℕ → World → List ℕ
answer function arguments w =
    if function == 0
    then descriptor_reply
    else if function == 4
    then 0 ∷ 0 ∷ 0 ∷ 0 ∷ 0 ∷ w.profile ∷ []
    else if function == 5
    then page_reply arguments w
    else []

abbrev pub effect : ℕ → List ℕ → World → World
effect function arguments w =
    if function == 3
    then record w { profile = get_or arguments 1 0 }
    else if function == 6
    then record w { open_page = unpack_be16 arguments; buffer = [] }
    else if function == 7
    then record w { buffer = w.buffer ++ arguments }
    else if function == 8
    then record w { pages = set w.pages w.open_page w.buffer }
    else w

abbrev pub information_reply : List ℕ
information_reply =
    0 ∷ 0 ∷ 0 ∷ 0 ∷ 1 ∷ 0x12 ∷ 0x34 ∷ 0x56 ∷ 0x78 ∷ 0 ∷ 0 ∷ 0x40 ∷ 0x9F ∷ 0 ∷ 0 ∷ 0 ∷ 0 ∷ []

abbrev pub firmware_reply : List ℕ
firmware_reply =
    0 ∷ 0 ∷ 0 ∷ 0 ∷ 0 ∷ b'M' ∷ b'P' ∷ b'M' ∷ 0x30 ∷ 0x00 ∷ 0x00 ∷ 0x14 ∷ 1 ∷ 0x40 ∷ 0x9F ∷ 0 ∷ 0 ∷ 0
    ∷ 0 ∷ 0 ∷ []

abbrev pub manifest : Manifest
manifest = record { pid = 0xC547; index = 1; write_allowed = true; fingerprint = "unit" }

-- The device of the manifest, on a host without another writer.
abbrev pub simulator : Images → Env World
simulator stored = record {
  connect = λ pid index w. (ok tt, w);
  close = λ w. w;
  onboard = λ function arguments w.
      (ok (some (answer function arguments w)), effect function arguments w);
  information = λ function arguments w.
      (ok (some (if function == 0 then information_reply else firmware_reply)), w);
  device_name = λ w. (ok (some tested_name), w);
  protocol = λ w. (ok none, w);
  conflicting_writers = λ w. (ok [], w);
  require_baseline = λ w. (ok tt, w);
  active_manifest = λ w. (ok manifest, w);
  baseline_map = λ w. (ok stored, w);
  save_checkpoint = λ label active images w. (ok "checkpoint", w);
  digest = λ identity. "unit";
}
