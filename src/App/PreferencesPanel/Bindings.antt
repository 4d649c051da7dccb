-- ===== src/App/PreferencesPanel/Bindings.antt =====
-- The bindings of app/preferencespanel.cpp: the other subtabs, and all the check boxes, the spin
-- boxes with their maxima, and the line edits.
use amule_remote_qt.Base.{refl, ℕ, Bool, List, [], ◌∷◌, ◌++◌}
use amule_remote_qt.Ec.Bytes.{Text}
use amule_remote_qt.App.PreferencesPanel.{Binding, binding}
use amule_remote_qt.App.PreferencesPanel.FirstBindings.{
  general_flags, general_texts, connection_flags, connection_numbers, files_flags, files_numbers,
  directories_flags, directories_texts,
}

abbrev pub servers_flags : List (Binding Bool)
servers_flags =
    binding (λ p. p.remove_dead_servers) (λ x p. record p { remove_dead_servers = x }) (λ p. refl)
    ∷ (binding (λ p. p.server_auto_update) (λ x p. record p { server_auto_update = x }) (λ p. refl)
        ∷ (binding (λ p. p.update_from_server) (λ x p. record p { update_from_server = x })
              (λ p. refl)
            ∷ (binding (λ p. p.update_from_client) (λ x p. record p { update_from_client = x })
                  (λ p. refl)
                ∷ (binding (λ p. p.use_score_system) (λ x p. record p { use_score_system = x })
                      (λ p. refl)
                    ∷ (binding (λ p. p.smart_id_check) (λ x p. record p { smart_id_check = x })
                          (λ p. refl)
                        ∷ (binding (λ p. p.safe_server_connect)
                              (λ x p. record p { safe_server_connect = x }) (λ p. refl)
                            ∷ (binding (λ p. p.auto_connect_static_only)
                                  (λ x p. record p { auto_connect_static_only = x }) (λ p. refl)
                                ∷ (binding (λ p. p.manual_high_prio)
                                      (λ x p. record p { manual_high_prio = x }) (λ p. refl)
                                    ∷ []))))))))

abbrev pub servers_numbers : List (ℕ × Binding ℕ)
servers_numbers =
    (
      1000,
      binding (λ p. p.dead_server_retries) (λ x p. record p { dead_server_retries = x })
          (λ p. refl),
    )
    ∷ []

abbrev pub servers_texts : List (Binding Text)
servers_texts =
    binding (λ p. p.server_list_url) (λ x p. record p { server_list_url = x }) (λ p. refl) ∷ []

abbrev pub security_flags : List (Binding Bool)
security_flags =
    binding (λ p. p.use_sec_ident) (λ x p. record p { use_sec_ident = x }) (λ p. refl)
    ∷ (binding (λ p. p.obfuscation_requested) (λ x p. record p { obfuscation_requested = x })
          (λ p. refl)
        ∷ (binding (λ p. p.obfuscation_required) (λ x p. record p { obfuscation_required = x })
              (λ p. refl)
            ∷ (binding (λ p. p.filter_clients) (λ x p. record p { filter_clients = x }) (λ p. refl)
                ∷ (binding (λ p. p.filter_servers) (λ x p. record p { filter_servers = x })
                      (λ p. refl)
                    ∷ (binding (λ p. p.ipfilter_auto_update)
                          (λ x p. record p { ipfilter_auto_update = x }) (λ p. refl)
                        ∷ (binding (λ p. p.filter_lan) (λ x p. record p { filter_lan = x })
                              (λ p. refl)
                            ∷ []))))))

abbrev pub security_numbers : List (ℕ × Binding ℕ)
security_numbers =
    (255, binding (λ p. p.ipfilter_level) (λ x p. record p { ipfilter_level = x }) (λ p. refl)) ∷ []

abbrev pub security_texts : List (Binding Text)
security_texts =
    binding (λ p. p.ipfilter_url) (λ x p. record p { ipfilter_url = x }) (λ p. refl) ∷ []

abbrev pub messages_flags : List (Binding Bool)
messages_flags =
    binding (λ p. p.msg_filter_enabled) (λ x p. record p { msg_filter_enabled = x }) (λ p. refl)
    ∷ (binding (λ p. p.msg_filter_all) (λ x p. record p { msg_filter_all = x }) (λ p. refl)
        ∷ (binding (λ p. p.msg_filter_friends) (λ x p. record p { msg_filter_friends = x })
              (λ p. refl)
            ∷ (binding (λ p. p.msg_filter_secure) (λ x p. record p { msg_filter_secure = x })
                  (λ p. refl)
                ∷ (binding (λ p. p.msg_filter_by_keyword)
                      (λ x p. record p { msg_filter_by_keyword = x }) (λ p. refl)
                    ∷ []))))

abbrev pub messages_texts : List (Binding Text)
messages_texts =
    binding (λ p. p.msg_keywords) (λ x p. record p { msg_keywords = x }) (λ p. refl) ∷ []

abbrev pub remote_flags : List (Binding Bool)
remote_flags =
    binding (λ p. p.webserver_autorun) (λ x p. record p { webserver_autorun = x }) (λ p. refl)
    ∷ (binding (λ p. p.webserver_guest) (λ x p. record p { webserver_guest = x }) (λ p. refl)
        ∷ (binding (λ p. p.webserver_gzip) (λ x p. record p { webserver_gzip = x }) (λ p. refl)
            ∷ []))

abbrev pub remote_numbers : List (ℕ × Binding ℕ)
remote_numbers =
    (65535, binding (λ p. p.webserver_port) (λ x p. record p { webserver_port = x }) (λ p. refl))
    ∷ ((
      100_000,
      binding (λ p. p.webserver_refresh) (λ x p. record p { webserver_refresh = x }) (λ p. refl),
    )
        ∷ [])

abbrev pub remote_texts : List (Binding Text)
remote_texts =
    binding (λ p. p.webserver_template) (λ x p. record p { webserver_template = x }) (λ p. refl)
    ∷ []

abbrev pub advanced_flags : List (Binding Bool)
advanced_flags = binding (λ p. p.verbose) (λ x p. record p { verbose = x }) (λ p. refl) ∷ []

abbrev pub advanced_numbers : List (ℕ × Binding ℕ)
advanced_numbers =
    (
      1000,
      binding (λ p. p.max_conn_per_5_sec) (λ x p. record p { max_conn_per_5_sec = x }) (λ p. refl),
    )
    ∷ ((
      2_000_000_000,
      binding (λ p. p.file_buffer_size) (λ x p. record p { file_buffer_size = x }) (λ p. refl),
    )
        ∷ ((
          1_000_000,
          binding (λ p. p.upload_queue_size) (λ x p. record p { upload_queue_size = x })
              (λ p. refl),
        )
            ∷ ((
              1_000_000,
              binding (λ p. p.server_keepalive_timeout)
                  (λ x p. record p { server_keepalive_timeout = x }) (λ p. refl),
            )
                ∷ [])))

abbrev pub advanced_texts : List (Binding Text)
advanced_texts =
    binding (λ p. p.kad_nodes_url) (λ x p. record p { kad_nodes_url = x }) (λ p. refl) ∷ []

-- `bools_`, `ints_` and `strings_` once every subtab is built.
abbrev pub bools : List (Binding Bool)
bools =
    general_flags
    ++ (connection_flags
        ++ (files_flags
            ++ (directories_flags
                ++ (servers_flags
                    ++ (security_flags ++ (messages_flags ++ (remote_flags ++ advanced_flags)))))))

abbrev pub ints : List (ℕ × Binding ℕ)
ints =
    connection_numbers
    ++ (files_numbers
        ++ (servers_numbers ++ (security_numbers ++ (remote_numbers ++ advanced_numbers))))

abbrev pub strings : List (Binding Text)
strings =
    general_texts
    ++ (directories_texts
        ++ (servers_texts
            ++ (security_texts ++ (messages_texts ++ (remote_texts ++ advanced_texts)))))
