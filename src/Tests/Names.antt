-- ===== src/Tests/Names.antt =====
-- The generator without a word list.
use void_link_tunnels.Base.{ℕ, ◌≡◌, ◌≢◌, refl, false, Option, none, some, [], codes}
use void_link_tunnels.Tunnel.Hostname.Laws.{IsLabel}
use void_link_tunnels.Services.Subdomain.{
  name, generate, pick_words, join, nth, default_words, new_subdomain_service,
}
use void_link_tunnels.Services.Subdomain.Label.{generate-IsLabel}

-- Each round draws its own number.
abbrev draw : ℕ → ℕ → Option ℕ
draw i n = some i

wolf_bear : generate draw false (new_subdomain_service none) ≡ name (codes "wolf-bear")
unfolding generate pick_words join nth default_words new_subdomain_service
wolf_bear = refl

generate-IsLabel_example : IsLabel (codes "wolf-bear") × (codes "wolf-bear" ≢ [])
generate-IsLabel_example = generate-IsLabel draw false none (codes "wolf-bear") wolf_bear
