-- ===== src/Main/Tests.antt =====
-- Command lines as the scripts of WattWatcher write them.
use wattwatcher.Prelude.{◌≡◌, refl, [], ◌∷◌, ◌++◌, true}
use wattwatcher.Text.{ℤ, atoi}
use wattwatcher.Main.{Outcome, conclude, defaults, main}
use wattwatcher.Main.Options.{Setting, keyword, words, apply_all, main-words, main-dangling}

main-words_example :
    main ("mcpat" ∷ words (Setting.infile "power.xml" ∷ Setting.print_level "5" ∷ []))
    ≡ conclude (apply_all (Setting.infile "power.xml" ∷ Setting.print_level "5" ∷ []) defaults)
main-words_example =
    main-words "mcpat" (Setting.infile "power.xml") (Setting.print_level "5" ∷ [])
      (refl, refl, refl) ((refl, refl, refl), ((refl, refl, refl), tt))

runs :
    main ("mcpat" ∷ "-infile" ∷ "power.xml" ∷ "-print_level" ∷ "5" ∷ [])
    ≡ Outcome.run "power.xml" (ℤ.pos 5) true
unfolding main atoi
runs = refl

main-dangling_example :
    main
      ("mcpat" ∷ words (Setting.infile "power.xml" ∷ []) ++ keyword (Setting.opt_for_clk "0") ∷ [])
    ≡ Outcome.fault
main-dangling_example =
    main-dangling "mcpat" (Setting.opt_for_clk "0") (Setting.infile "power.xml" ∷ [])
      (refl, refl, refl) ((refl, refl, refl), tt)

too_large : main ("mcpat" ∷ "-print_level" ∷ "10000000000" ∷ []) ≡ Outcome.fault
unfolding main atoi
too_large = refl
