-- ===== src/Cluster.antt =====
-- pkg/cluster: the wire format between the nodes, and the node that serves and sends requests.
pub mod Binary
pub mod Mesh
pub mod Members
pub mod MeshPool
pub mod Pool
pub mod Start
