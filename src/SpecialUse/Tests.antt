-- ===== src/SpecialUse/Tests.antt =====
-- Names that src/dns/specialuse.rs answers and names that it does not.
use egressdns.Prelude.{false, none, refl, some, ◌↔◌, ◌≡◌}
use egressdns.Cache.Name.{to_ascii_lowercase, ends_with_dot, str_eq, ends_with}
use egressdns.SpecialUse.{
  bytes, nxdomain_suffixes, qualified, is_loop_marker, classify, multicast_dns, invalid, nx_domain,
  loop_marker,
}
use egressdns.SpecialUse.Laws.{AtOrBeneath, Listed, classify-none_iff}

printer : classify (bytes "Printer.LOCAL") ≡ some (multicast_dns, nx_domain)
unfolding classify str_eq ends_with_dot to_ascii_lowercase ends_with is_loop_marker
    nxdomain_suffixes
printer = refl

-- No whole label stands before the loop marker's suffix here.
glued_marker : classify (bytes "xloop-probe.egressdns.invalid.") ≡ some (invalid, loop_marker)
unfolding classify str_eq ends_with_dot to_ascii_lowercase ends_with is_loop_marker
glued_marker = refl

classify-none_iff_example :
    let name = qualified (bytes "Example.com") in
    (classify (bytes "Example.com") ≡ none) ↔ (
      (¬ AtOrBeneath name (bytes "localhost."))
      × (is_loop_marker name ≡ false)
      × (¬ Listed nxdomain_suffixes name))
classify-none_iff_example = classify-none_iff (bytes "Example.com")
