-- ===== src/Loader/Cache.antt =====
-- The cache of assemblies in `GetOrLoadAssembly`.
use Prim.Native.String.{String}
use plugify.Loader.Host.{Host, Loader}
