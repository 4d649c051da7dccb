-- ===== src/App/MainWindow/Passwords.antt =====
-- The password in app/mainwindow.cpp: what is stored of it, and that what is stored connects.
use amule_remote_qt.Base.{ℕ, ◌≡◌, refl, ◌∙◌, true, Bool-cases, inl, inr}
use amule_remote_qt.Ec.Bytes.{Bytes, Text, Qt}
use amule_remote_qt.Ec.Client.Password.{is_md5_hex, md5_hex, normalize_password_md5}
use amule_remote_qt.Worker.State.{Worker, Daemon}
use amule_remote_qt.Worker.Slots.{connect_to_daemon, connect_daemon, step}
use amule_remote_qt.App.MainWindow.{Desktop, Window}
use amule_remote_qt.App.MainWindow.Connection.{RemoteConfEc, load_settings, save_settings}

-- What Qt documents of the conversions: a digest prints as 32 digits in lower case, and lower case
-- keeps hexadecimal digits and is reached at once.
pub record IsHexing (qt : Qt) : Type 0 where
  pub digest_hex : (b : Bytes) → is_md5_hex (md5_hex qt b) ≡ true
  pub digest_lower : (b : Bytes) → qt.to_lower (md5_hex qt b) ≡ md5_hex qt b
  pub lower_hex : (t : Text) → is_md5_hex t ≡ true → is_md5_hex (qt.to_lower t) ≡ true
  pub lower_again : (t : Text) → qt.to_lower (qt.to_lower t) ≡ qt.to_lower t

module _ (qt : Qt) (h : IsHexing qt) where
  pub is_md5_hex-normalize_password_md5 :
      (t : Text) → is_md5_hex (normalize_password_md5 qt t) ≡ true
  unfolding normalize_password_md5
  is_md5_hex-normalize_password_md5 t = elim (Bool-cases (is_md5_hex t)) [
    | inl e ↦ rw e (h.lower_hex t e)
    | inr e ↦ rw e (h.digest_hex (qt.to_utf8 t))
  ]

  -- A digest of hexadecimal digits is only brought to lower case.
  normalize_hex : (t : Text) → is_md5_hex t ≡ true → normalize_password_md5 qt t ≡ qt.to_lower t
  unfolding normalize_password_md5
  normalize_hex t e = rw e refl

  lower_normal :
      (t : Text) → qt.to_lower (normalize_password_md5 qt t) ≡ normalize_password_md5 qt t
  unfolding normalize_password_md5
  lower_normal t = elim (Bool-cases (is_md5_hex t)) [
    | inl e ↦ rw e (h.lower_again t)
    | inr e ↦ rw e (h.digest_lower (qt.to_utf8 t))
  ]

  pub normalize_password_md5_again :
      (t : Text)
      → normalize_password_md5 qt (normalize_password_md5 qt t) ≡ normalize_password_md5 qt t
  normalize_password_md5_again t =
      normalize_hex _ (is_md5_hex-normalize_password_md5 t) ∙ lower_normal t

-- What is remembered of the password of a window whose settings are saved.
password-load_settings :
    (d : Desktop) (ec : RemoteConfEc) (old new : Window)
    → old.remember ≡ true
    → (load_settings ec (save_settings d old).settings new).password
      ≡ normalize_password_md5 d.qt old.password
unfolding save_settings load_settings
password-load_settings d ec old new kept = rw kept refl

module _ (d : Desktop) (h : IsHexing d.qt) {S : Type 0} (dm : Daemon S) where
  -- A password that the settings remember connects, once they are loaded into any window, as the
  -- password itself does: the worker does the same with the one and the other, whatever the daemon,
  -- where Qt's conversions behave as documented.
  pub connect_remembered :
      (ec : RemoteConfEc) (old new : Window) (now : ℕ) (host : Text) (port : ℕ) (w : Worker S)
      → old.remember ≡ true
      → step d.qt dm now
          (connect_to_daemon host port
            (load_settings ec (save_settings d old).settings new).password)
          w
        ≡ step d.qt dm now (connect_to_daemon host port old.password) w
  unfolding step connect_daemon
  connect_remembered ec old new now host port w kept =
      rw
        (password-load_settings d ec old new kept, normalize_password_md5_again d.qt h old.password)
        refl
