-- ===== src/App/PreferencesPanel/FirstBindings.antt =====
-- The bindings of the first subtabs of app/preferencespanel.cpp: general, connection, files and
-- directories.
use amule_remote_qt.Base.{refl, ℕ, Bool, List, [], ◌∷◌}
use amule_remote_qt.Ec.Bytes.{Text}
use amule_remote_qt.App.PreferencesPanel.{Binding, binding}

abbrev pub general_flags : List (Binding Bool)
general_flags =
    binding (λ p. p.check_new_version) (λ x p. record p { check_new_version = x }) (λ p. refl)
    ∷ (binding (λ p. p.online_signature_enabled) (λ x p. record p { online_signature_enabled = x })
          (λ p. refl)
        ∷ [])

abbrev pub general_texts : List (Binding Text)
general_texts = binding (λ p. p.nick) (λ x p. record p { nick = x }) (λ p. refl) ∷ []

abbrev pub connection_flags : List (Binding Bool)
connection_flags =
    binding (λ p. p.udp_disable) (λ x p. record p { udp_disable = x }) (λ p. refl)
    ∷ (binding (λ p. p.network_ed2k) (λ x p. record p { network_ed2k = x }) (λ p. refl)
        ∷ (binding (λ p. p.network_kad) (λ x p. record p { network_kad = x }) (λ p. refl)
            ∷ (binding (λ p. p.autoconnect) (λ x p. record p { autoconnect = x }) (λ p. refl)
                ∷ (binding (λ p. p.reconnect) (λ x p. record p { reconnect = x }) (λ p. refl)
                    ∷ []))))

abbrev pub connection_numbers : List (ℕ × Binding ℕ)
connection_numbers =
    (1_000_000, binding (λ p. p.max_download) (λ x p. record p { max_download = x }) (λ p. refl))
    ∷ ((1_000_000, binding (λ p. p.max_upload) (λ x p. record p { max_upload = x }) (λ p. refl))
        ∷ ((
          1_000_000,
          binding (λ p. p.slot_allocation) (λ x p. record p { slot_allocation = x }) (λ p. refl),
        )
            ∷ ((
              1_000_000,
              binding (λ p. p.download_capacity) (λ x p. record p { download_capacity = x })
                  (λ p. refl),
            )
                ∷ ((
                  1_000_000,
                  binding (λ p. p.upload_capacity) (λ x p. record p { upload_capacity = x })
                      (λ p. refl),
                )
                    ∷ ((
                      65535,
                      binding (λ p. p.tcp_port) (λ x p. record p { tcp_port = x }) (λ p. refl),
                    )
                        ∷ ((
                          65535,
                          binding (λ p. p.udp_port) (λ x p. record p { udp_port = x }) (λ p. refl),
                        )
                            ∷ ((
                              100_000,
                              binding (λ p. p.max_sources) (λ x p. record p { max_sources = x })
                                  (λ p. refl),
                            )
                                ∷ ((
                                  100_000,
                                  binding (λ p. p.max_connections)
                                      (λ x p. record p { max_connections = x }) (λ p. refl),
                                )
                                    ∷ []))))))))

abbrev pub files_flags : List (Binding Bool)
files_flags =
    binding (λ p. p.ich_enabled) (λ x p. record p { ich_enabled = x }) (λ p. refl)
    ∷ (binding (λ p. p.aich_trust) (λ x p. record p { aich_trust = x }) (λ p. refl)
        ∷ (binding (λ p. p.add_new_paused) (λ x p. record p { add_new_paused = x }) (λ p. refl)
            ∷ (binding (λ p. p.add_new_auto_dl_prio) (λ x p. record p { add_new_auto_dl_prio = x })
                  (λ p. refl)
                ∷ (binding (λ p. p.preview_prio) (λ x p. record p { preview_prio = x }) (λ p. refl)
                    ∷ (binding (λ p. p.start_next_paused)
                          (λ x p. record p { start_next_paused = x }) (λ p. refl)
                        ∷ (binding (λ p. p.resume_same_category)
                              (λ x p. record p { resume_same_category = x }) (λ p. refl)
                            ∷ (binding (λ p. p.alloc_full_size)
                                  (λ x p. record p { alloc_full_size = x }) (λ p. refl)
                                ∷ (binding (λ p. p.ul_full_chunks)
                                      (λ x p. record p { ul_full_chunks = x }) (λ p. refl)
                                    ∷ (binding (λ p. p.extract_metadata)
                                          (λ x p. record p { extract_metadata = x }) (λ p. refl)
                                        ∷ (binding (λ p. p.save_sources)
                                              (λ x p. record p { save_sources = x }) (λ p. refl)
                                            ∷ (binding (λ p. p.check_free_space)
                                                  (λ x p. record p { check_free_space = x })
                                                  (λ p. refl)
                                                ∷ (binding (λ p. p.add_new_auto_ul_prio)
                                                      (λ x p. record p { add_new_auto_ul_prio = x })
                                                      (λ p. refl)
                                                    ∷ []))))))))))))

abbrev pub files_numbers : List (ℕ × Binding ℕ)
files_numbers =
    (
      1_000_000,
      binding (λ p. p.min_free_space_mb) (λ x p. record p { min_free_space_mb = x }) (λ p. refl),
    )
    ∷ []

abbrev pub directories_flags : List (Binding Bool)
directories_flags =
    binding (λ p. p.share_hidden) (λ x p. record p { share_hidden = x }) (λ p. refl)
    ∷ (binding (λ p. p.auto_rescan) (λ x p. record p { auto_rescan = x }) (λ p. refl) ∷ [])

abbrev pub directories_texts : List (Binding Text)
directories_texts =
    binding (λ p. p.incoming_dir) (λ x p. record p { incoming_dir = x }) (λ p. refl)
    ∷ (binding (λ p. p.temp_dir) (λ x p. record p { temp_dir = x }) (λ p. refl) ∷ [])
