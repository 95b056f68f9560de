-- ===== src/Config/Options.antt =====
-- What holds of the ids and addresses after all options.
use wspace_controller.Prelude.{◌≡◌, refl, subst, List, [], ◌∷◌}
use wspace_controller.Prelude.Result.{ok, ok-injective, >>=-eq-ok}
use wspace_controller.Map.{find, has}
use wspace_controller.NodeId.{node_id_eq}
use wspace_controller.Text.{fields, atoi}
use wspace_controller.Config.{Config, Opt, initial_config, parse_ip, take_option, take_options}
use wspace_controller.Config.Ids.{
  AreIdsValid, parse_bs_ids-AreIdsValid, parse_client_ids-AreIdsValid, parse_ip-AreKeysIn,
}

-- The members that the ids are about.
kept-AreIdsValid :
    (c c' : Config)
    → AreIdsValid c
    → (c'.bs_ids ≡ c.bs_ids) × (c'.client_ids ≡ c.client_ids)
    → (c'.bs_ip_tbl ≡ c.bs_ip_tbl) × (c'.client_ip_tbl ≡ c.client_ip_tbl)
    → c'.client_original_seq_tbl ≡ c.client_original_seq_tbl
    → AreIdsValid c'
kept-AreIdsValid c c' v (a, b) (x, y) z = record {
  no_controller_bs = rw a v.no_controller_bs;
  no_controller_client = rw b v.no_controller_client;
  bs_addresses = rw (a, x) v.bs_addresses;
  client_addresses = rw (b, y) v.client_addresses;
  counted = rw (b, z) v.counted;
  from_zero = rw z v.from_zero;
}

-- An option that sets another member.
set-AreIdsValid :
    (c d c' : Config)
    → AreIdsValid c
    → (d.bs_ids ≡ c.bs_ids) × (d.client_ids ≡ c.client_ids)
    → (d.bs_ip_tbl ≡ c.bs_ip_tbl) × (d.client_ip_tbl ≡ c.client_ip_tbl)
    → d.client_original_seq_tbl ≡ c.client_original_seq_tbl
    → ok d ≡ ok c'
    → AreIdsValid c'
set-AreIdsValid c d c' v a x z run =
    subst AreIdsValid (ok-injective _ _ run) (kept-AreIdsValid c d v a x z)

take_option-AreIdsValid :
    (o : Opt) (c c' : Config) → AreIdsValid c → take_option o c ≡ ok c' → AreIdsValid c'
unfolding take_option
take_option-AreIdsValid (Opt.controller_ip_eth arg) c c' v run =
    set-AreIdsValid c _ c' v (refl, refl) (refl, refl) refl run
take_option-AreIdsValid (Opt.if_name arg) c c' v run =
    set-AreIdsValid c _ c' v (refl, refl) (refl, refl) refl run
take_option-AreIdsValid (Opt.executable arg) c c' v run =
    set-AreIdsValid c _ c' v (refl, refl) (refl, refl) refl run
take_option-AreIdsValid (Opt.route_log arg) c c' v run =
    set-AreIdsValid c _ c' v (refl, refl) (refl, refl) refl run
take_option-AreIdsValid (Opt.update_interval arg) c c' v run =
    let (n, _, rest) = >>=-eq-ok (atoi arg) _ run in
    set-AreIdsValid c _ c' v (refl, refl) (refl, refl) refl rest
take_option-AreIdsValid (Opt.round_interval arg) c c' v run =
    let (n, _, rest) = >>=-eq-ok (atoi arg) _ run in
    set-AreIdsValid c _ c' v (refl, refl) (refl, refl) refl rest
take_option-AreIdsValid (Opt.fairness_mode arg) c c' v run =
    let (n, _, rest) = >>=-eq-ok (atoi arg) _ run in
    set-AreIdsValid c _ c' v (refl, refl) (refl, refl) refl rest
take_option-AreIdsValid (Opt.same_channel arg) c c' v run =
    let (n, _, rest) = >>=-eq-ok (atoi arg) _ run in
    set-AreIdsValid c _ c' v (refl, refl) (refl, refl) refl rest
take_option-AreIdsValid (Opt.scheduling_mode arg) c c' v run =
    let (n, _, rest) = >>=-eq-ok (atoi arg) _ run in
    set-AreIdsValid c _ c' v (refl, refl) (refl, refl) refl rest
take_option-AreIdsValid (Opt.bs_ids arg) c c' v run =
    parse_bs_ids-AreIdsValid (fields b',' arg) c c' v run
take_option-AreIdsValid (Opt.client_ids arg) c c' v run =
    parse_client_ids-AreIdsValid (fields b',' arg) c c' v run
take_option-AreIdsValid (Opt.bs_ip_eth arg) c c' v run =
    let (t, ends, rest) = >>=-eq-ok (parse_ip c.bs_ids arg c.bs_ip_tbl) _ run in
    subst AreIdsValid (ok-injective _ _ rest) (record {
      no_controller_bs = v.no_controller_bs;
      no_controller_client = v.no_controller_client;
      bs_addresses = parse_ip-AreKeysIn c.bs_ids arg c.bs_ip_tbl t v.bs_addresses ends;
      client_addresses = v.client_addresses;
      counted = v.counted;
      from_zero = v.from_zero;
    })
take_option-AreIdsValid (Opt.client_ip_eth arg) c c' v run =
    let (t, ends, rest) = >>=-eq-ok (parse_ip c.client_ids arg c.client_ip_tbl) _ run in
    subst AreIdsValid (ok-injective _ _ rest) (record {
      no_controller_bs = v.no_controller_bs;
      no_controller_client = v.no_controller_client;
      bs_addresses = v.bs_addresses;
      client_addresses =
          parse_ip-AreKeysIn c.client_ids arg c.client_ip_tbl t v.client_addresses ends;
      counted = v.counted;
      from_zero = v.from_zero;
    })
take_option-AreIdsValid Opt.other c c' v run = cc

take_options-AreIdsValid :
    (os : List Opt) (c c' : Config) → AreIdsValid c → take_options os c ≡ ok c' → AreIdsValid c'
unfolding take_options
take_options-AreIdsValid [] c c' v run = subst AreIdsValid (ok-injective _ _ run) v
take_options-AreIdsValid (o ∷ os) c c' v run =
    let (d, ends, rest) = >>=-eq-ok (take_option o c) _ run in
    take_options-AreIdsValid os d c' (take_option-AreIdsValid o c d v ends) rest

-- Whatever the options are, and in whatever order: when the program does not end, no station and no
-- client has the controller's id 1, each address belongs to an id that was given, and only clients that
-- were given have a sequence number, which is 0.
pub take_options_lem :
    (os : List Opt) (c : Config) → take_options os initial_config ≡ ok c → AreIdsValid c
unfolding has find
take_options_lem os c run =
    take_options-AreIdsValid os initial_config c
      (record {
        no_controller_bs = refl;
        no_controller_client = refl;
        bs_addresses = λ k h. cc;
        client_addresses = λ k h. cc;
        counted = λ k h. cc;
        from_zero = λ k n f. cc;
      })
      run
