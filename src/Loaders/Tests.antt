-- ===== src/Loaders/Tests.antt =====
-- Concrete runs of LoaderRegistry of ui/src/data/loaders/loaderRegistry.ts.
use Prim.Native.String.{String}
use ocap2_web.Base.{ℕ, ◌≡◌, refl, Option, some, []}
use ocap2_web.Base.Map
use ocap2_web.Base.Map.{Map}
use ocap2_web.Loaders.{register, get_loader}
use ocap2_web.Loaders.Closest.{IsClosest, IsChosen, get_loader-IsClosest}

abbrev registry : Map String
registry = register 4 "four" (register 7 "seven" (register 1 "one" []))

get_loader-IsClosest_example :
    (o : Option ℕ) × IsClosest 5 (Map.keys registry) o × IsChosen registry o (get_loader 5 registry)
get_loader-IsClosest_example = get_loader-IsClosest 5 registry

falls_back : get_loader 5 registry ≡ some "four"
unfolding get_loader Map.put Map.has Map.get
falls_back = refl
