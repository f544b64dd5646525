-- ===== src/Device/Connection.antt =====
-- Which device a connection of g502x_onboard/device.py is left open to.
use g502x_onboard.Base.{◌≡◌, true}
use package.text.Mathlib.Text.{◌==◌ as str_eq}
use g502x_onboard.Base.Exec.Yields.{
  Yields, Yields-pure, Yields-check, Yields-bind, Yields-fact, Yields-any,
}
use g502x_onboard.Identity.{
  Manifest, Descriptor, DeviceInfo, fingerprint, manifest_fingerprint_matches,
}
use g502x_onboard.Identity.Policy.{IsTestedDevice, apply_identity_policy-tested}
use g502x_onboard.Device.{Env}
use g502x_onboard.Device.Port.{assert_connection_matches_manifest}

module _ {W : Type 0} (env : Env W) (manifest : Manifest) where
  -- A connection that is not refused is one to the tested device, at the receiver and slot of the
  -- manifest, and the hash of its identity is the fingerprint of the manifest, whatever the device
  -- answers.
  pub assert_connection-tested :
      Yields
        (λ w. Unit {0})
        (assert_connection_matches_manifest env manifest)
        (λ (found : Descriptor × DeviceInfo) w.
          IsTestedDevice found.0 manifest.pid manifest.index found.1
          × (str_eq
                (fingerprint env.digest found.0 found.1 manifest.pid manifest.index)
                manifest.fingerprint
              ≡ true))
  unfolding assert_connection_matches_manifest manifest_fingerprint_matches
  assert_connection-tested = Yields-bind _ _ (Yields-any _) (λ descriptor.
      Yields-bind _ _ (Yields-any _) (λ u. Yields-bind _ _ (Yields-any _) (λ info.
        Yields-bind _ _ (Yields-check _ _) (λ v. Yields-fact _ (λ allowed.
          Yields-bind _ _ (Yields-check _ _) (λ x.
            Yields-pure (descriptor, info)
              (λ w h. (
                apply_identity_policy-tested descriptor manifest.pid manifest.index info allowed,
                h.1,
              ))))))))
