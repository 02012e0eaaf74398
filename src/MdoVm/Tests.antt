-- ===== src/MdoVm/Tests.antt =====
-- Runs of the policy machine of kernel/src/mdo_vm.rs on small bytecodes.
use polymorph_os.Prelude.{ℕ, ◌≡◌, refl, List, [], ◌∷◌, done, fail}
use polymorph_os.Prelude.{replicate, true, false}
use polymorph_os.MdoVm.{MdoContext, Hash, execute_mict_check}
use polymorph_os.MdoVm.Refines.{meaning, execute_mict_check_refines}
use polymorph_os.MdoVm.Rounds.{IsContext}
use polymorph_os.MdoVm.Policy.{Rule, var, hash, compile, encode, verdict, policy_decides}

abbrev key : ℕ → Hash
key k = replicate 32 k

-- The requestor is the owner.
abbrev own : MdoContext
own = record { requestor_id_hash = key 7; action_hash = key 2; owner_id_hash = key 7; status = 0 }

abbrev foreign : MdoContext
foreign = record own { requestor_id_hash = key 8 }

own-IsContext : IsContext own
own-IsContext = record { requestor = refl; action = refl; owner = refl }

foreign-IsContext : IsContext foreign
foreign-IsContext = record { requestor = refl; action = refl; owner = refl }

-- Only the owner, and not for action 9.
abbrev owner_only : List Rule
owner_only =
    record { left = var 1; right = var 3; wants_equal = true; code = 0x42 }
    ∷ record { left = var 2; right = hash (key 9); wants_equal = false; code = 0x43 }
    ∷ []

owner_passes : execute_mict_check (encode (compile owner_only)) own ≡ done tt
unfolding execute_mict_check
owner_passes = refl

foreign_fails : execute_mict_check (encode (compile owner_only)) foreign ≡ fail 0x42
unfolding execute_mict_check
foreign_fails = refl

no_halt : execute_mict_check (0x10 ∷ 1 ∷ []) own ≡ fail 0xFB
unfolding execute_mict_check
no_halt = refl

cut_off : execute_mict_check (0x10 ∷ []) own ≡ fail 0xFF
unfolding execute_mict_check
cut_off = refl

underflows : execute_mict_check (0x20 ∷ []) own ≡ fail 0xFD
unfolding execute_mict_check
underflows = refl

execute_mict_check_refines_example :
    execute_mict_check (encode (compile owner_only)) own ≡ meaning (encode (compile owner_only)) own
execute_mict_check_refines_example =
    execute_mict_check_refines (encode (compile owner_only)) own own-IsContext

policy_decides_example :
    execute_mict_check (encode (compile owner_only)) foreign ≡ verdict foreign owner_only
policy_decides_example =
    policy_decides owner_only foreign ((tt, tt), ((tt, refl), tt)) foreign-IsContext
